-- ===== src/Base64/Table.antt =====
-- The encoder's characters under the decoder's table.
use iclaustron.Base.{
  ℕ, suc, ◌%◌, ◌<◌, ◌≡◌, refl, Bool, true, false, not, List, ◌∷◌, ◌==◌, arith, ap,
}
use iclaustron.Base.Bits.{passes_under, passes_under-at}
use iclaustron.Base64.{
  Decoded, done, refused, out_of_area, ◌>>=◌, decode_char, decode_quad, encode_value,
}

value_returns : ℕ → Bool
unfolding decode_char encode_value
value_returns v = elim (decode_char (encode_value v)) [
  | done w ↦ w == v
  | refused ↦ false
  | out_of_area ↦ false
]

not_line_end : ℕ → Bool
unfolding encode_value
not_line_end v = not (encode_value v == 10)

all_return : passes_under value_returns 64 ≡ true
unfolding passes_under value_returns
all_return = refl

no_line_ends : passes_under not_line_end 64 ≡ true
unfolding passes_under not_line_end
no_line_ends = refl

pub decode_char-encode_value : (v : ℕ) → v < 64 → decode_char (encode_value v) ≡ done v
decode_char-encode_value v small =
    found (decode_char (encode_value v))
      (unfold value_returns in (passes_under-at value_returns 64 v small all_return))
  where
    found :
        (r : Decoded ℕ)
        → elim r [ done w ↦ w == v | refused ↦ false | out_of_area ↦ false ] ≡ true
        → r ≡ done v
    found (done w) e = ap done (ground arith)
    found refused e = cc
    found out_of_area e = cc

pub encode_value-ne : (v : ℕ) → v < 64 → (encode_value v == 10) ≡ false
encode_value-ne v small =
    let differs : not (encode_value v == 10) ≡ true =
      unfold not_line_end in (passes_under-at not_line_end 64 v small no_line_ends) in
    ground arith

pub quad_step :
    (n v : ℕ) (src : List ℕ) (conv_len : ℕ) (last : Bool)
    → v < 64
    → decode_quad (suc n) (encode_value v ∷ src) conv_len last
      ≡ (decode_quad n src conv_len last >>= λ quad. done (record quad { chars = v ∷ quad.chars }))
unfolding decode_quad
quad_step n v src conv_len last small =
    let plain : (v == 64) ≡ false = ground arith in
    let value : v % 64 ≡ v = omega arith in
    rw (decode_char-encode_value v small) (rw plain (rw value refl))
