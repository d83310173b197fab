-- ===== src/ConnectString.antt =====
-- util/ic_parse_connectstring.c: the list of cluster servers in a connect string,
-- `host1:port1,host2:port2`. Characters are numbers. The memory container is not looked into: it is
-- given by the list of its answers to the requests for memory; the requests behind the list are granted.
mod Steps
mod OneHost
mod Tests
use iclaustron.Base.{
  ℕ, zero, suc, ◌+◌, Bool, true, false, not, ◌&&◌, ◌||◌, Option, none, some, List, [], ◌∷◌, ltb,
  leb, ◌==◌, if◌then◌else◌, set, take, drop, length,
}

abbrev pub max_cluster_servers : ℕ
max_cluster_servers = 4

abbrev pub parse_error : ℕ
parse_error = 7056

abbrev pub too_many_error : ℕ
too_many_error = 7057

abbrev pub no_memory_error : ℕ
no_memory_error = 7005

-- "1186"
abbrev pub default_port : List ℕ
default_port = 49 ∷ 49 ∷ 56 ∷ 54 ∷ []

-- How a routine ends: with a value, with an error code, or in a write outside an array.
pub data Parsed {ℓ} (A : Type ℓ) : Type ℓ where
  parsed : A → Parsed A
  failed : ℕ → Parsed A
  out_of_array : Parsed A

infixl 5 ◌>>=◌
abbrev pub ◌>>=◌ {ℓ κ} : {A : Type ℓ} {B : Type κ} → Parsed A → (A → Parsed B) → Parsed B
parsed a >>= f = f a
failed e >>= f = failed e
out_of_array >>= f = out_of_array

-- `IC_CONNECT_STRING` and the variables of the parser.
pub record Parser : Type 0 where
  pub cs_hosts : List (Option (List ℕ))
  pub cs_ports : List (Option (List ℕ))
  pub num_cs_servers : ℕ
  pub memory : List Bool
  pub start : ℕ
  pub curr_len : ℕ
  pub read_host : Bool
  pub read_port : Bool

-- The next answer of the memory container, and the answers behind it.
pub ask : List Bool → Bool × List Bool
ask [] = (true, [])
ask (b ∷ memory) = (b, memory)

pub write_slot : List (Option (List ℕ)) → ℕ → List ℕ → Parsed (List (Option (List ℕ)))
write_slot slots i text =
    if ltb i (length slots) then parsed (set slots i (some text)) else out_of_array

-- The copy of the current part of the string.
pub part : List ℕ → Parser → List ℕ
part str p = take p.curr_len (drop p.start str)

pub analyse_host : List ℕ → Parser → Parsed Parser
unfolding ask write_slot part
analyse_host str p =
    let (granted, memory) = ask p.memory in
    if p.curr_len == 0
    then failed parse_error
    else if p.num_cs_servers == max_cluster_servers
    then failed too_many_error
    else if not granted
    then failed no_memory_error
    else write_slot p.cs_hosts p.num_cs_servers (part str p)
      >>= (λ cs_hosts. parsed (record p { cs_hosts = cs_hosts; memory = memory }))

pub analyse_port_number : List ℕ → Parser → Parsed Parser
unfolding ask write_slot part
analyse_port_number str p =
    let (granted, memory) = ask p.memory in
    if p.curr_len == 0
    then failed parse_error
    else if not granted
    then failed no_memory_error
    else write_slot p.cs_ports p.num_cs_servers (part str p)
      >>= (λ cs_ports. parsed (record p { cs_ports = cs_ports; memory = memory }))

-- The end of a host without a port, and of a port.
pub end_server : List ℕ → Parser → Parsed Parser
unfolding analyse_host analyse_port_number write_slot
end_server str p = do
  let with_default = do
    q ← analyse_host str p
    cs_ports ← write_slot q.cs_ports q.num_cs_servers default_port
    parsed (record q { cs_ports = cs_ports })
  let with_port = analyse_port_number str p
  r ← if p.read_host then with_default else with_port
  parsed (record r { num_cs_servers = r.num_cs_servers + 1 })

-- The start of the next part, behind the separator.
pub next_part : Parser → (read_host : Bool) → Parser
next_part p read_host = record p {
  read_host = read_host;
  read_port = not read_host;
  start = p.start + (p.curr_len + 1);
  curr_len = 0;
}

pub is_host_char : ℕ → Bool
is_host_char c =
    (leb 97 c && leb c 122)
    || (leb 65 c && leb c 90)
    || (leb 48 c && leb c 57)
    || c == 95
    || c == 45
    || c == 46

pub is_port_char : ℕ → Bool
is_port_char c = leb 48 c && leb c 57

-- A round of the loop.
pub step : List ℕ → Parser → ℕ → Parsed Parser
unfolding end_server analyse_host next_part is_host_char is_port_char
step str p c =
    let longer = record p { curr_len = p.curr_len + 1 } in
    if c == 44
    then end_server str p >>= (λ q. parsed (next_part q true))
    else if c == 58
    then (if p.read_port
        then failed parse_error
        else analyse_host str p >>= (λ q. parsed (next_part q false)))
    else if p.read_host
    then (if is_host_char c then parsed longer else failed parse_error)
    else if p.read_port
    then (if is_port_char c then parsed longer else failed parse_error)
    else parsed longer

pub parse_loop : List ℕ → Parser → List ℕ → Parsed Parser
unfolding step
parse_loop str p [] = parsed p
parse_loop str p (c ∷ chars) = step str p c >>= (λ q. parse_loop str q chars)

abbrev pub four_empty : List (Option (List ℕ))
four_empty = none ∷ none ∷ none ∷ none ∷ []

-- The arrays behind `ic_mc_calloc`, and the variables before the loop.
pub start_parser : List Bool → Parser
start_parser memory = record {
  cs_hosts = four_empty;
  cs_ports = four_empty;
  num_cs_servers = 0;
  memory = memory;
  start = 0;
  curr_len = 0;
  read_host = true;
  read_port = false;
}

-- The loop of the parser runs once for an empty string, with the 0 that ends it.
pub parse_chars : List ℕ → List ℕ
parse_chars [] = 0 ∷ []
parse_chars (c ∷ str) = c ∷ str

-- `ic_parse_connectstring`, with whether the container is made; `none` is a connect string that is `NULL`.
pub parse_connectstring :
    (created : Bool)
    → (memory : List Bool) → Option (List ℕ)
    → (cs_server_name cs_server_port : List ℕ) → Parsed Parser
unfolding ask parse_loop end_server start_parser parse_chars
parse_connectstring created memory connect_string cs_server_name cs_server_port =
    let (hosts_granted, memory1) = ask memory in
    let (ports_granted, memory2) = ask memory1 in
    let p = start_parser memory2 in
    let run : Parsed Parser = elim connect_string [
      | none ↦ parsed (record p {
        cs_hosts = some cs_server_name ∷ none ∷ none ∷ none ∷ [];
        cs_ports = some cs_server_port ∷ none ∷ none ∷ none ∷ [];
        num_cs_servers = 1;
      })
      | some str ↦ parse_loop str p (parse_chars str) >>= (λ q. end_server str q)
    ] in
    if not created || not hosts_granted || not ports_granted then failed no_memory_error else run
