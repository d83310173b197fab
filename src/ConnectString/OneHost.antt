-- ===== src/ConnectString/OneHost.antt =====
-- A connect string that is one host.
use iclaustron.Base.{
  ℕ, suc, ◌+◌, ◌<◌, ◌≡◌, refl, true, false, none, some, List, [], ◌∷◌, ◌==◌, take, length, arith,
  ap, ◌∙◌,
}
use iclaustron.ConnectString.{
  Parsed, parsed, ◌>>=◌, Parser, is_host_char, step, parse_loop, end_server, analyse_host,
  write_slot, part, start_parser, parse_chars, parse_connectstring, default_port,
}

-- Each character may stand in the name of a host.
abbrev pub AllHostChars : List ℕ → Type 0
AllHostChars [] = Unit
AllHostChars (c ∷ cs) = (is_host_char c ≡ true) × AllHostChars cs

no_separator : (c : ℕ) → is_host_char c ≡ true → ((c == 44) ≡ false) × ((c == 58) ≡ false)
unfolding is_host_char
no_separator c host = (ground arith, ground arith)

step-host :
    (str : List ℕ) (p : Parser) (c : ℕ)
    → is_host_char c ≡ true
    → p.read_host ≡ true
    → step str p c ≡ parsed (record p { curr_len = p.curr_len + 1 })
unfolding step
step-host str p c host reading =
    let (comma, colon) = no_separator c host in rw comma (rw colon (rw reading (rw host refl)))

parse_loop-host :
    (str : List ℕ) (p : Parser) (chars : List ℕ)
    → AllHostChars chars
    → p.read_host ≡ true
    → parse_loop str p chars ≡ parsed (record p { curr_len = p.curr_len + length chars })
unfolding parse_loop
parse_loop-host str p [] host reading =
    ap (λ (n : ℕ). parsed (record p { curr_len = n })) (omega arith)
parse_loop-host str p (c ∷ chars) host reading =
    ap (λ (run : Parsed Parser). run >>= λ q. parse_loop str q chars)
      (step-host str p c host.0 reading)
    ∙ parse_loop-host str (record p { curr_len = p.curr_len + 1 }) chars host.1 reading
    ∙ ap (λ (n : ℕ). parsed (record p { curr_len = n })) (omega arith)

take-all : (xs : List ℕ) → take (length xs) xs ≡ xs
take-all [] = refl
take-all (x ∷ xs) = ap (◌∷◌ x) (take-all xs)

abbrev pub one_host : List ℕ → ℕ → Parser
one_host text n = record {
  cs_hosts = some text ∷ none ∷ none ∷ none ∷ [];
  cs_ports = some default_port ∷ none ∷ none ∷ none ∷ [];
  num_cs_servers = 1;
  memory = [];
  start = 0;
  curr_len = n;
  read_host = true;
  read_port = false;
}

end_server-host :
    (str : List ℕ) (n : ℕ)
    → 0 < n
    → end_server str (record (start_parser []) { curr_len = n }) ≡ parsed (one_host (take n str) n)
unfolding end_server analyse_host write_slot part start_parser
end_server-host str n some_char = let longer : (n == 0) ≡ false = ground arith in rw longer refl

-- A string of one or more characters that may stand in the name of a host is accepted where memory does not run
-- out: the list has one server, with the string as its host and the default port.
pub parse_connectstring-host :
    (c : ℕ) (str cs_server_name cs_server_port : List ℕ)
    → AllHostChars (c ∷ str)
    → parse_connectstring true [] (some (c ∷ str)) cs_server_name cs_server_port
      ≡ parsed (one_host (c ∷ str) (suc (length str)))
unfolding parse_connectstring start_parser parse_chars
parse_connectstring-host c str cs_server_name cs_server_port host =
    ap (λ (run : Parsed Parser). run >>= λ q. end_server (c ∷ str) q)
      (parse_loop-host (c ∷ str) (start_parser []) (c ∷ str) host refl)
    ∙ ap (λ (n : ℕ). end_server (c ∷ str) (record (start_parser []) { curr_len = n })) (omega arith)
    ∙ end_server-host (c ∷ str) (suc (length str)) (omega arith)
    ∙ ap (λ (text : List ℕ). parsed (one_host text (suc (length str)))) (take-all (c ∷ str))
