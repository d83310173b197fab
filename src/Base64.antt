-- ===== src/Base64.antt =====
-- protocol/ic_base64.c: the base64 encoder and decoder. Bytes are numbers under 256; a shift is a
-- division or a product with a power of 2, and a mask `2 ^ k - 1` is a remainder.
mod Table
mod Encode
mod RoundTrip
mod LineEnds
mod Tests
use iclaustron.Base.{
  ℕ, zero, suc, ◌+◌, ◌-◌, ◌*◌, ◌/◌, ◌%◌, Bool, true, false, ◌||◌, Option, none, some, List, [], ◌∷◌,
  ◌++◌, ltb, ◌==◌, if◌then◌else◌, get_elem?, get_or, set, length, require, Outcome, ok, ◌>>◌,
}

-- Decode map from ASCII 43, `+`, to ASCII 122, `z`.
abbrev pub decode_table : List ℕ
decode_table =
    62 ∷ 65 ∷ 65 ∷ 65 ∷ 63 ∷ 52 ∷ 53 ∷ 54 ∷ 55 ∷ 56 ∷ 57 ∷ 58 ∷ 59 ∷ 60 ∷ 61 ∷ 65 ∷ 65 ∷ 65 ∷ 64
    ∷ 65 ∷ 65 ∷ 65 ∷ 0 ∷ 1 ∷ 2 ∷ 3 ∷ 4 ∷ 5 ∷ 6 ∷ 7 ∷ 8 ∷ 9 ∷ 10 ∷ 11 ∷ 12 ∷ 13 ∷ 14 ∷ 15 ∷ 16 ∷ 17
    ∷ 18 ∷ 19 ∷ 20 ∷ 21 ∷ 22 ∷ 23 ∷ 24 ∷ 25 ∷ 65 ∷ 65 ∷ 65 ∷ 65 ∷ 65 ∷ 65 ∷ 26 ∷ 27 ∷ 28 ∷ 29 ∷ 30
    ∷ 31 ∷ 32 ∷ 33 ∷ 34 ∷ 35 ∷ 36 ∷ 37 ∷ 38 ∷ 39 ∷ 40 ∷ 41 ∷ 42 ∷ 43 ∷ 44 ∷ 45 ∷ 46 ∷ 47 ∷ 48 ∷ 49
    ∷ 50 ∷ 51 ∷ []

abbrev pub encode_table : List ℕ
encode_table =
    65 ∷ 66 ∷ 67 ∷ 68 ∷ 69 ∷ 70 ∷ 71 ∷ 72 ∷ 73 ∷ 74 ∷ 75 ∷ 76 ∷ 77 ∷ 78 ∷ 79 ∷ 80 ∷ 81 ∷ 82 ∷ 83
    ∷ 84 ∷ 85 ∷ 86 ∷ 87 ∷ 88 ∷ 89 ∷ 90 ∷ 97 ∷ 98 ∷ 99 ∷ 100 ∷ 101 ∷ 102 ∷ 103 ∷ 104 ∷ 105 ∷ 106
    ∷ 107 ∷ 108 ∷ 109 ∷ 110 ∷ 111 ∷ 112 ∷ 113 ∷ 114 ∷ 115 ∷ 116 ∷ 117 ∷ 118 ∷ 119 ∷ 120 ∷ 121 ∷ 122
    ∷ 48 ∷ 49 ∷ 50 ∷ 51 ∷ 52 ∷ 53 ∷ 54 ∷ 55 ∷ 56 ∷ 57 ∷ 43 ∷ 47 ∷ []

-- How the decoder ends: with a value, with return value 1, or in an access outside its areas.
pub data Decoded {ℓ} (A : Type ℓ) : Type ℓ where
  done : A → Decoded A
  refused : Decoded A
  out_of_area : Decoded A

infixl 5 ◌>>=◌
abbrev pub ◌>>=◌ {ℓ κ} : {A : Type ℓ} {B : Type κ} → Decoded A → (A → Decoded B) → Decoded B
done a >>= f = f a
refused >>= f = refused
out_of_area >>= f = out_of_area

-- The value of a character: 64 is the fill character `=`.
pub decode_char : ℕ → Decoded ℕ
decode_char c =
    let conv_char = get_or decode_table (c - 43) 65 in
    if ltb c 43 || ltb 122 c then refused else if conv_char == 65 then refused else done conv_char

-- The inner loop: the values of `n` characters, with `conv_len` and `last` behind them.
pub record Quad : Type 0 where
  pub chars : List ℕ
  pub conv_len : ℕ
  pub last : Bool

pub decode_quad : ℕ → List ℕ → (conv_len : ℕ) → (last : Bool) → Decoded Quad
unfolding decode_char
decode_quad zero src conv_len last = done (record { chars = []; conv_len = conv_len; last = last })
decode_quad (suc n) [] conv_len last = out_of_area
decode_quad (suc n) (c ∷ src) conv_len last = do
  conv_char ← decode_char c
  let plain = decode_quad n src conv_len last
  let fill = decode_quad n src (conv_len - 1) true
  quad ← if conv_char == 64 then (if conv_len - 1 == 0 then refused else fill) else plain
  done (record quad { chars = (conv_char % 64) ∷ quad.chars })

-- A write to `dest`, whose size is the value that `dest_len` points at.
pub put : List ℕ → ℕ → ℕ → Decoded (List ℕ)
put dest i v = if ltb i (length dest) then done (set dest i (v % 256)) else out_of_area

-- The three bytes of a quad.
pub put_bytes : List ℕ → ℕ → List ℕ → Decoded (List ℕ)
unfolding put
put_bytes dest inx chars = do
  let c1 = get_or chars 0 0
  let c2 = get_or chars 1 0
  let c3 = get_or chars 2 0
  let c4 = get_or chars 3 0
  dest1 ← put dest inx (c1 * 4 + c2 / 16)
  dest2 ← put dest1 (inx + 1) ((c2 % 16) * 16 + c3 / 4)
  put dest2 (inx + 2) ((c3 % 4) * 64 + c4)

-- The loop over the quads. A source that ends within a quad is read on behind its end.
pub decode_loop :
    (dest_len : ℕ) → List ℕ → (inx tot : ℕ) → (last : Bool) → List ℕ → Decoded (List ℕ × ℕ)
unfolding decode_quad put_bytes
decode_loop dest_len dest inx tot last [] = done (dest, tot)
decode_loop dest_len dest inx tot last (a ∷ b ∷ c ∷ d ∷ src) = do
  let quad = decode_quad 4 (a ∷ b ∷ c ∷ d ∷ []) 3 last
  if ltb inx dest_len
      then (if last
          then refused
          else quad >>= (λ quad. put_bytes dest inx quad.chars >>= (λ dest'.
            decode_loop dest_len dest' (inx + 3) (tot + quad.conv_len) quad.last src)))
      else refused
decode_loop dest_len dest inx tot last src = do
  let quad = decode_quad 4 src 3 last
  if ltb inx dest_len then (if last then refused else quad >>= (λ quad. out_of_area)) else refused

-- `ic_base64_decode`: the contents of `dest`, and the length that it sets.
pub base64_decode : List ℕ → List ℕ → Decoded (List ℕ × ℕ)
unfolding decode_loop
base64_decode dest src = decode_loop (length dest) dest 0 0 false src

abbrev pub carriage_return : ℕ
carriage_return = 10

pub encode_value : ℕ → ℕ
encode_value v = get_or encode_table v 0

-- The characters of a group of three, two or one bytes.
pub encode_three : ℕ → ℕ → ℕ → List ℕ
unfolding encode_value
encode_three a b c =
    encode_value (a / 4)
    ∷ encode_value ((a % 4) * 16 + b / 16)
    ∷ encode_value ((b % 16) * 4 + c / 64)
    ∷ encode_value (c % 64)
    ∷ []

pub encode_two : ℕ → ℕ → List ℕ
unfolding encode_value
encode_two a b =
    encode_value (a / 4)
    ∷ encode_value ((a % 4) * 16 + b / 16)
    ∷ encode_value ((b % 16) * 4)
    ∷ 61
    ∷ []

pub encode_one : ℕ → List ℕ
unfolding encode_value
encode_one a = encode_value (a / 4) ∷ encode_value ((a % 4) * 16) ∷ 61 ∷ 61 ∷ []

-- The line end behind the last quad, `cr_count` quads behind the line end before.
pub last_line : ℕ → List ℕ
last_line cr_count = if cr_count == 0 then [] else carriage_return ∷ []

-- What the encoder writes, `cr_count` quads behind the last line end.
pub encode_loop : (cr_count : ℕ) → List ℕ → List ℕ
unfolding encode_three encode_two encode_one last_line
encode_loop cr_count [] = last_line cr_count
encode_loop cr_count (a ∷ []) = encode_one a ++ last_line (cr_count + 1)
encode_loop cr_count (a ∷ b ∷ []) = encode_two a b ++ last_line (cr_count + 1)
encode_loop cr_count (a ∷ b ∷ c ∷ src) =
    let ended = encode_loop 0 src in
    let going = encode_loop (cr_count + 1) src in
    encode_three a b c ++ (if cr_count + 1 == 19 then carriage_return ∷ ended else going)

pub real_quads : ℕ → ℕ
real_quads src_len = (src_len + 2) / 3

pub encoded_len : ℕ → ℕ
unfolding real_quads
encoded_len src_len = 4 * real_quads src_len + (real_quads src_len + 18) / 19

abbrev pub mem_alloc_error : ℕ
mem_alloc_error = 7005

-- `ic_base64_encode`, with whether `ic_calloc` gives the area: the error code with the text and its length.
-- `ic_assert` checks that the text with the 0 behind it fills the area.
pub base64_encode : (allocated : Bool) → List ℕ → Outcome (ℕ × Option (List ℕ × ℕ))
unfolding encode_loop encoded_len
base64_encode false src = ok (mem_alloc_error, none)
base64_encode true src =
    let text = encode_loop 0 src in
    let dst_len = encoded_len (length src) in
    require (length text + 1 == dst_len + 1) >> ok (0, some (text, dst_len))
