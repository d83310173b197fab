-- ===== src/Base64/Tests.antt =====
-- The text of the bytes of "Man ", a group of three and one byte behind it.
use iclaustron.Base.{ℕ, ◌≡◌, refl, List, [], ◌∷◌, ◌++◌, arith}
use iclaustron.Base64.{done, refused, base64_decode, encode_loop, encoded_len}
use iclaustron.Base64.Encode.{AllBytes, strip}
use iclaustron.Base64.RoundTrip.{base64_decode-encode_loop}
use iclaustron.Base64.LineEnds.{base64_decode-refuses}

abbrev four : List ℕ
four = 77 ∷ 97 ∷ 110 ∷ 32 ∷ []

abbrev area : List ℕ
area = 0 ∷ 0 ∷ 0 ∷ 0 ∷ 0 ∷ 0 ∷ 0 ∷ []

four-AllBytes : AllBytes four
four-AllBytes = (omega arith, (omega arith, (omega arith, (omega arith, tt))))

four-encoded : encode_loop 0 four ≡ 84 ∷ 87 ∷ 70 ∷ 117 ∷ 73 ∷ 65 ∷ 61 ∷ 61 ∷ 10 ∷ []
unfolding encode_loop
four-encoded = refl

base64_decode-encode_loop_example :
    (rest : List ℕ) × (base64_decode area (strip (encode_loop 0 four)) ≡ done (four ++ rest, 4))
base64_decode-encode_loop_example =
    base64_decode-encode_loop four area four-AllBytes (unfold encoded_len in (omega arith))

base64_decode-refuses_example : base64_decode area (encode_loop 0 four) ≡ refused
base64_decode-refuses_example =
    base64_decode-refuses 77 (97 ∷ 110 ∷ 32 ∷ []) area four-AllBytes
      (unfold encoded_len in (omega arith))
