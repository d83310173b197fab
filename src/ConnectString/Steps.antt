-- ===== src/ConnectString/Steps.antt =====
-- The parser keeps to its arrays, and its result has a host and a port for each server.
use iclaustron.Base.{
  ℕ, ◌+◌, ◌<◌, ◌≤◌, ◌≡◌, refl, Bool, true, false, not, ◌||◌, Option, none, some, List, [], ◌∷◌, ltb,
  ◌==◌, if◌then◌else◌, set, length, get_elem?, arith, sym, ap, length-set, get_elem?-set_self,
  get_elem?-set_ne, ℕ_discrete, ◌∙◌,
}
use mathlib.Core.Path.{subst}
use iclaustron.ConnectString.{
  Parsed, parsed, failed, out_of_array, ◌>>=◌, Parser, ask, write_slot, part, is_host_char,
  is_port_char, analyse_host, analyse_port_number, end_server, next_part, step, parse_loop,
  parse_chars, start_parser, parse_connectstring, default_port,
}

-- A run that does not leave the arrays, and ends with a value for which `P` holds where it ends with one.
abbrev pub Safe {ℓ} : {A : Type ℓ} → Parsed A → (A → Type 0) → Type 0
Safe (parsed a) P = P a
Safe (failed e) P = Unit
Safe out_of_array P = ⊥

bind_Safe :
    {A B : Type 0} (P : A → Type 0) (Q : B → Type 0) (m : Parsed A) (f : A → Parsed B)
    → Safe m P
    → ((a : A) → P a → Safe (f a) Q)
    → Safe (m >>= f) Q
bind_Safe P Q (parsed a) f s k = k a s
bind_Safe P Q (failed e) f s k = tt
bind_Safe P Q out_of_array f s k = s

if_Safe :
    {A : Type 0} (P : A → Type 0) (b : Bool) (m n : Parsed A)
    → (b ≡ true → Safe m P)
    → (b ≡ false → Safe n P)
    → Safe (if b then m else n) P
if_Safe P true m n then_part else_part = then_part refl
if_Safe P false m n then_part else_part = else_part refl

weaken :
    {A : Type 0} {P Q : A → Type 0} (m : Parsed A) → ((a : A) → P a → Q a) → Safe m P → Safe m Q
weaken (parsed a) f s = f a s
weaken (failed e) f s = tt
weaken out_of_array f s = s

abbrev pub Full : List (Option (List ℕ)) → ℕ → Type 0
Full slots i = (text : List ℕ) × (get_elem? slots i ≡ some (some text))

Full-set :
    (slots : List (Option (List ℕ))) (i j : ℕ) (text : List ℕ)
    → Full slots j
    → i < length slots
    → Full (set slots i (some text)) j
Full-set slots i j text full inside = elim (ℕ_discrete i j) [
  | yes e ↦ (
    text,
    ap (get_elem? (set slots i (some text))) (sym e)
        ∙ get_elem?-set_self slots i (some text) inside,
  )
  | no ne ↦ (full.0, get_elem?-set_ne slots (some text) ne ∙ full.1)
]

write_slot-Safe :
    (slots : List (Option (List ℕ))) (i : ℕ) (text : List ℕ)
    → i < length slots
    → Safe (write_slot slots i text) λ slots'.
      (length slots' ≡ length slots) × Full slots' i × ((j : ℕ) → Full slots j → Full slots' j)
unfolding write_slot
write_slot-Safe slots i text inside =
    let there : ltb i (length slots) ≡ true = ground arith in
    rw there (
      length-set slots i (some text),
      (text, get_elem?-set_self slots i (some text) inside),
      (λ j full. Full-set slots i j text full inside),
    )

-- What holds between two rounds.
pub record IsGood (p : Parser) : Type 0 where
  pub hosts_length : length p.cs_hosts ≡ 4
  pub ports_length : length p.cs_ports ≡ 4
  pub bound : p.num_cs_servers ≤ 4
  pub room : p.read_host ≡ false → p.num_cs_servers < 4
  pub full : (i : ℕ) → i < p.num_cs_servers → Full p.cs_hosts i × Full p.cs_ports i
  pub half : p.read_host ≡ false → Full p.cs_hosts p.num_cs_servers

-- What `analyse_host` leaves: a host at the next place, all else but the memory the same.
abbrev AfterHost : Parser → Parser → Type 0
AfterHost p q =
    (q.num_cs_servers ≡ p.num_cs_servers)
    × (p.num_cs_servers < 4)
    × (q.cs_ports ≡ p.cs_ports)
    × (length q.cs_hosts ≡ 4)
    × Full q.cs_hosts p.num_cs_servers
    × ((j : ℕ) → Full p.cs_hosts j → Full q.cs_hosts j)

analyse_host-Safe : (str : List ℕ) (p : Parser) → IsGood p → Safe (analyse_host str p) (AfterHost p)
unfolding analyse_host
analyse_host-Safe str p good =
    if_Safe _ (p.curr_len == 0) _ _ (λ e. tt)
      (λ e.
        if_Safe _ (p.num_cs_servers == 4) _ _ (λ f. tt)
          (λ f.
            let room : p.num_cs_servers < 4 = ground (arith, good.bound) in
            if_Safe _ (not (ask p.memory).0) _ _ (λ g. tt)
              (λ g.
                bind_Safe _ _ (write_slot p.cs_hosts p.num_cs_servers (part str p)) _
                  (write_slot-Safe p.cs_hosts p.num_cs_servers (part str p)
                    (omega (arith, good.hosts_length)))
                  (λ slots done. (refl, room, refl, done.0 ∙ good.hosts_length, done.1, done.2)))))

abbrev AfterPort : Parser → Parser → Type 0
AfterPort p q =
    (q.num_cs_servers ≡ p.num_cs_servers)
    × (q.cs_hosts ≡ p.cs_hosts)
    × (length q.cs_ports ≡ 4)
    × Full q.cs_ports p.num_cs_servers
    × ((j : ℕ) → Full p.cs_ports j → Full q.cs_ports j)

analyse_port-Safe :
    (str : List ℕ) (p : Parser)
    → IsGood p
    → p.num_cs_servers < 4
    → Safe (analyse_port_number str p) (AfterPort p)
unfolding analyse_port_number
analyse_port-Safe str p good room =
    if_Safe _ (p.curr_len == 0) _ _ (λ e. tt)
      (λ e.
        if_Safe _ (not (ask p.memory).0) _ _ (λ g. tt)
          (λ g.
            bind_Safe _ _ (write_slot p.cs_ports p.num_cs_servers (part str p)) _
              (write_slot-Safe p.cs_ports p.num_cs_servers (part str p)
                (omega (arith, good.ports_length)))
              (λ slots done. (refl, refl, done.0 ∙ good.ports_length, done.1, done.2))))

-- A list of servers of which each has a host and a port.
pub record IsFull (p : Parser) : Type 0 where
  pub hosts_length : length p.cs_hosts ≡ 4
  pub ports_length : length p.cs_ports ≡ 4
  pub some_server : 0 < p.num_cs_servers
  pub bound : p.num_cs_servers ≤ 4
  pub full : (i : ℕ) → i < p.num_cs_servers → Full p.cs_hosts i × Full p.cs_ports i

one_more : (P : ℕ → Type 0) (n : ℕ) → ((i : ℕ) → i < n → P i) → P n → (i : ℕ) → i < n + 1 → P i
one_more P n below at i less = elim (ℕ_discrete n i) [
  | yes e ↦ subst P e at
  | no ne ↦ below i (ground arith)
]

-- Before `num_cs_servers` is counted up.
abbrev Filled : Parser → Type 0
Filled r =
    (r.num_cs_servers < 4)
    × (length r.cs_hosts ≡ 4)
    × (length r.cs_ports ≡ 4)
    × ((i : ℕ) → i < r.num_cs_servers + 1 → Full r.cs_hosts i × Full r.cs_ports i)

host-Filled :
    (p q : Parser) (slots : List (Option (List ℕ)))
    → IsGood p
    → AfterHost p q
    → length slots ≡ 4
    → Full slots p.num_cs_servers
    → ((j : ℕ) → Full p.cs_ports j → Full slots j)
    → Filled (record q { cs_ports = slots })
host-Filled p q slots good after sized at kept = (
  omega (arith, after.0, after.1),
  after.3,
  sized,
  subst (λ (n : ℕ). (i : ℕ) → i < n + 1 → Full q.cs_hosts i × Full slots i) (sym after.0)
      (one_more (λ i. Full q.cs_hosts i × Full slots i) p.num_cs_servers
        (λ i less. (after.5 i (good.full i less).0, kept i (good.full i less).1)) (after.4, at)),
)

port-Filled : (p q : Parser) → IsGood p → p.read_host ≡ false → AfterPort p q → Filled q
port-Filled p q good port after =
    let same_host : (i : ℕ) → Full p.cs_hosts i → Full q.cs_hosts i =
      λ i full. subst (λ (hosts : List (Option (List ℕ))). Full hosts i) (sym after.1) full in
    (
      omega (arith, after.0, good.room port),
      ap length after.1 ∙ good.hosts_length,
      after.2,
      subst (λ (n : ℕ). (i : ℕ) → i < n + 1 → Full q.cs_hosts i × Full q.cs_ports i) (sym after.0)
          (one_more (λ i. Full q.cs_hosts i × Full q.cs_ports i) p.num_cs_servers
            (λ i less. (same_host i (good.full i less).0, after.4 i (good.full i less).1))
            (same_host p.num_cs_servers (good.half port), after.3)),
    )

end_server-Safe : (str : List ℕ) (p : Parser) → IsGood p → Safe (end_server str p) IsFull
unfolding end_server
end_server-Safe str p good =
    bind_Safe Filled IsFull _ _
      (if_Safe _ p.read_host _ _
        (λ host.
          bind_Safe (AfterHost p) _ (analyse_host str p) _ (analyse_host-Safe str p good)
            (λ q after.
              bind_Safe _ _ (write_slot q.cs_ports q.num_cs_servers default_port) _
                (write_slot-Safe q.cs_ports q.num_cs_servers default_port
                  (omega (arith, after.0, after.1, ap length after.2, good.ports_length)))
                (λ slots done.
                  host-Filled p q slots good after (done.0 ∙ ap length after.2 ∙ good.ports_length)
                    (subst (λ (n : ℕ). Full slots n) after.0 done.1)
                    (λ j full. done.2 j (
                      subst (λ (ports : List (Option (List ℕ))). Full ports j) (sym after.2)
                        full)))))
        (λ port.
          weaken (analyse_port_number str p) (λ q. port-Filled p q good port)
            (analyse_port-Safe str p good (good.room port))))
      (λ r filled. record {
        hosts_length = filled.1;
        ports_length = filled.2;
        some_server = omega arith;
        bound = omega (arith, filled.0);
        full = filled.3;
      })

next-IsGood : (p : Parser) → IsFull p → IsGood (next_part p true)
unfolding next_part
next-IsGood p full = record {
  hosts_length = full.hosts_length;
  ports_length = full.ports_length;
  bound = full.bound;
  room = λ e. cc;
  full = full.full;
  half = λ e. cc;
}

port-IsGood : (p q : Parser) → IsGood p → AfterHost p q → IsGood (next_part q false)
unfolding next_part
port-IsGood p q good after = record {
  hosts_length = after.3;
  ports_length = rw after.2 good.ports_length;
  bound = omega (arith, after.0, after.1);
  room = λ e. omega (arith, after.0, after.1);
  full = λ i less.
      let before : i < p.num_cs_servers = omega (arith, after.0) in
      (
        after.5 i (good.full i before).0,
        subst (λ (ports : List (Option (List ℕ))). Full ports i) (sym after.2)
            (good.full i before).1,
      );
  half = λ e. rw after.0 after.4;
}

step-Safe : (str : List ℕ) (p : Parser) (c : ℕ) → IsGood p → Safe (step str p c) IsGood
unfolding step
step-Safe str p c good =
    if_Safe _ (c == 44) _ _
      (λ comma.
        bind_Safe IsFull _ (end_server str p) _ (end_server-Safe str p good)
          (λ q full. next-IsGood q full))
      (λ e.
        if_Safe _ (c == 58) _ _
          (λ colon.
            if_Safe _ p.read_port _ _ (λ f. tt)
              (λ f.
                bind_Safe (AfterHost p) _ (analyse_host str p) _ (analyse_host-Safe str p good)
                  (λ q after. port-IsGood p q good after)))
          (λ f.
            if_Safe _ p.read_host _ _
              (λ host. if_Safe _ (is_host_char c) _ _ (λ g. longer) (λ g. tt))
              (λ host.
                if_Safe _ p.read_port _ _
                  (λ port. if_Safe _ (is_port_char c) _ _ (λ g. longer) (λ g. tt))
                  (λ port. longer))))
  where
    longer : IsGood (record p { curr_len = p.curr_len + 1 })
    longer = record {
      hosts_length = good.hosts_length;
      ports_length = good.ports_length;
      bound = good.bound;
      room = good.room;
      full = good.full;
      half = good.half;
    }

parse_loop-Safe :
    (str : List ℕ) (p : Parser) (chars : List ℕ) → IsGood p → Safe (parse_loop str p chars) IsGood
unfolding parse_loop
parse_loop-Safe str p [] good = good
parse_loop-Safe str p (c ∷ chars) good =
    bind_Safe IsGood _ (step str p c) _ (step-Safe str p c good)
      (λ q next. parse_loop-Safe str q chars next)

start_parser-IsGood : (memory : List Bool) → IsGood (start_parser memory)
unfolding start_parser
start_parser-IsGood memory = record {
  hosts_length = refl;
  ports_length = refl;
  bound = omega arith;
  room = λ e. cc;
  full = λ i less. absurd (omega arith);
  half = λ e. cc;
}

-- `ic_parse_connectstring` never writes outside its arrays, for every string and every answer to its requests
-- for memory. Where it succeeds there is at least one server, there are at most 4, and each has a host and a port.
pub parse_connectstring-Safe :
    (created : Bool) (memory : List Bool) (connect_string : Option (List ℕ))
    (cs_server_name cs_server_port : List ℕ)
    → Safe (parse_connectstring created memory connect_string cs_server_name cs_server_port) IsFull
unfolding parse_connectstring
parse_connectstring-Safe created memory none cs_server_name cs_server_port =
    if_Safe _ (not created || not (ask memory).0 || not (ask (ask memory).1).0) _ _ (λ e. tt)
      (λ e. record {
        hosts_length = refl;
        ports_length = refl;
        some_server = omega arith;
        bound = omega arith;
        full =
            one_more _ 0 (λ i less. absurd (omega arith))
              ((cs_server_name, refl), (cs_server_port, refl));
      })
parse_connectstring-Safe created memory (some str) cs_server_name cs_server_port =
    if_Safe _ (not created || not (ask memory).0 || not (ask (ask memory).1).0) _ _ (λ e. tt)
      (λ e.
        bind_Safe IsGood _ (parse_loop str (start_parser (ask (ask memory).1).1) (parse_chars str))
          _
          (parse_loop-Safe str (start_parser (ask (ask memory).1).1) (parse_chars str)
            (start_parser-IsGood _))
          (λ q good. end_server-Safe str q good))
