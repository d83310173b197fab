-- ===== src/Base64/Encode.antt =====
-- The length of the encoder's text, and the text without its line ends.
use iclaustron.Base.{
  ℕ, ◌+◌, ◌*◌, ◌/◌, ◌%◌, ◌<◌, ◌≡◌, refl, Bool, true, some, List, [], ◌∷◌, ◌++◌, ◌==◌, if◌then◌else◌,
  arith, ap, ◌∙◌, length, ok, require, ◌>>◌, Bool-cases, inl, inr,
}
use iclaustron.Base64.{
  encode_value, encode_one, encode_two, encode_three, last_line, encode_loop, real_quads,
  encoded_len, base64_encode,
}
use iclaustron.Base64.Table.{encode_value-ne}

-- Each item is a byte.
abbrev pub AllBytes : List ℕ → Type 0
AllBytes [] = Unit
AllBytes (a ∷ src) = (a < 256) × AllBytes src

length-encode_loop :
    (cr : ℕ) (src : List ℕ)
    → cr < 19
    → length (encode_loop cr src)
      ≡ 4 * ((length src + 2) / 3) + (cr + (length src + 2) / 3 + 18) / 19
unfolding encode_loop last_line encode_one encode_two encode_three
length-encode_loop cr [] small = ground arith
length-encode_loop cr (a ∷ []) small = ground arith
length-encode_loop cr (a ∷ b ∷ []) small = ground arith
length-encode_loop cr (a ∷ b ∷ c ∷ src) small = elim (Bool-cases (cr + 1 == 19)) [
  | inl full ↦
      let rest = length-encode_loop 0 src (omega arith) in
      let at : cr ≡ 18 = ground arith in rw full (omega (arith, rest, at))
  | inr going ↦
      let rest = length-encode_loop (cr + 1) src (ground arith) in rw going (omega (arith, rest))
]

test_holds :
    (src : List ℕ) → (length (encode_loop 0 src) + 1 == encoded_len (length src) + 1) ≡ true
unfolding encoded_len real_quads
test_holds src = ground (arith, length-encode_loop 0 src)

-- The text that the encoder writes fills the area that it allocates, the 0 behind it included, so its assertion holds.
pub base64_encode-fits :
    (src : List ℕ)
    → base64_encode true src ≡ ok (0, some (encode_loop 0 src, encoded_len (length src)))
unfolding base64_encode
base64_encode-fits src =
    ap (λ (b : Bool). require b >> ok (0, some (encode_loop 0 src, encoded_len (length src))))
      (test_holds src)

-- A text without its line ends.
unfoldable pub strip : List ℕ → List ℕ
strip [] = []
strip (c ∷ text) = let rest = strip text in if c == 10 then rest else c ∷ rest

-- The quads alone.
unfoldable pub quads : List ℕ → List ℕ
unfolding encode_one encode_two encode_three
quads [] = []
quads (a ∷ []) = encode_one a
quads (a ∷ b ∷ []) = encode_two a b
quads (a ∷ b ∷ c ∷ src) = encode_three a b c ++ quads src

strip-value :
    (v : ℕ) (text : List ℕ) → v < 64 → strip (encode_value v ∷ text) ≡ encode_value v ∷ strip text
unfolding strip
strip-value v text small = rw (encode_value-ne v small) refl

strip-last : (cr : ℕ) → strip (last_line cr) ≡ []
unfolding strip last_line
strip-last cr = elim (Bool-cases (cr == 0)) [ inl e ↦ rw e refl | inr e ↦ rw e refl ]

module _ (text : List ℕ) where
  strip-one : (a : ℕ) → a < 256 → strip (encode_one a ++ text) ≡ encode_one a ++ strip text
  unfolding encode_one strip
  strip-one a small =
      rw (strip-value (a / 4) _ (omega arith), strip-value ((a % 4) * 16) _ (omega arith)) refl

  strip-two :
      (a b : ℕ) → a < 256 → b < 256 → strip (encode_two a b ++ text) ≡ encode_two a b ++ strip text
  unfolding encode_two strip
  strip-two a b small_a small_b =
      rw
        (
          strip-value (a / 4) _ (omega arith),
          strip-value ((a % 4) * 16 + b / 16) _ (omega arith),
          strip-value ((b % 16) * 4) _ (omega arith),
        )
        refl

  strip-three :
      (a b c : ℕ)
      → a < 256
      → b < 256
      → c < 256
      → strip (encode_three a b c ++ text) ≡ encode_three a b c ++ strip text
  unfolding encode_three
  strip-three a b c small_a small_b small_c =
      rw
        (
          strip-value (a / 4) _ (omega arith),
          strip-value ((a % 4) * 16 + b / 16) _ (omega arith),
          strip-value ((b % 16) * 4 + c / 64) _ (omega arith),
          strip-value (c % 64) _ (omega arith),
        )
        refl

append_nil : (xs : List ℕ) → xs ++ [] ≡ xs
append_nil [] = refl
append_nil (x ∷ xs) = ap (◌∷◌ x) (append_nil xs)

pub strip-encode_loop :
    (cr : ℕ) (src : List ℕ) → AllBytes src → strip (encode_loop cr src) ≡ quads src
unfolding encode_loop quads strip
strip-encode_loop cr [] bytes = strip-last cr
strip-encode_loop cr (a ∷ []) bytes =
    strip-one (last_line (cr + 1)) a bytes.0
    ∙ ap (◌++◌ (encode_one a)) (strip-last (cr + 1))
    ∙ append_nil _
strip-encode_loop cr (a ∷ b ∷ []) bytes =
    strip-two (last_line (cr + 1)) a b bytes.0 bytes.1.0
    ∙ ap (◌++◌ (encode_two a b)) (strip-last (cr + 1))
    ∙ append_nil _
strip-encode_loop cr (a ∷ b ∷ c ∷ src) bytes =
    let ended : List ℕ =
      if cr + 1 == 19 then 10 ∷ encode_loop 0 src else encode_loop (cr + 1) src in
    let rest : strip ended ≡ quads src = elim (Bool-cases (cr + 1 == 19)) [
      | inl full ↦ rw full (strip-encode_loop 0 src bytes.1.1.1)
      | inr going ↦ rw going (strip-encode_loop (cr + 1) src bytes.1.1.1)
    ] in
    strip-three ended a b c bytes.0 bytes.1.0 bytes.1.1.0 ∙ ap (◌++◌ (encode_three a b c)) rest
