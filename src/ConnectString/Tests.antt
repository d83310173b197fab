-- ===== src/ConnectString/Tests.antt =====
-- The connect string "a:12,b" at concrete answers of the memory container.
use iclaustron.Base.{ℕ, ◌≡◌, refl, true, Option, none, some, List, [], ◌∷◌}
use iclaustron.ConnectString.{Parser, Parsed, parsed, failed, out_of_array, parse_connectstring}
use iclaustron.ConnectString.Steps.{Safe, IsFull, parse_connectstring-Safe}

abbrev a_and_b : List ℕ
a_and_b = 97 ∷ 58 ∷ 49 ∷ 50 ∷ 44 ∷ 98 ∷ []

result : Parsed Parser → Option (List (Option (List ℕ)) × List (Option (List ℕ)) × ℕ)
result (parsed p) = some (p.cs_hosts, p.cs_ports, p.num_cs_servers)
result (failed e) = none
result out_of_array = none

-- Two servers, the second with the default port.
a_and_b-parsed :
    result (parse_connectstring true [] (some a_and_b) [] [])
    ≡ some (
      some (97 ∷ []) ∷ some (98 ∷ []) ∷ none ∷ none ∷ [],
      some (49 ∷ 50 ∷ []) ∷ some (49 ∷ 49 ∷ 56 ∷ 54 ∷ []) ∷ none ∷ none ∷ [],
      2,
    )
unfolding parse_connectstring result
a_and_b-parsed = refl

-- The empty string is refused.
nothing-failed : parse_connectstring true [] (some []) [] [] ≡ failed 7056
unfolding parse_connectstring
nothing-failed = refl

parse_connectstring-Safe_example : Safe (parse_connectstring true [] (some a_and_b) [] []) IsFull
parse_connectstring-Safe_example = parse_connectstring-Safe true [] (some a_and_b) [] []
