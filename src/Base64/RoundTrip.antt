-- ===== src/Base64/RoundTrip.antt =====
-- Decoding what the encoder wrote.
use iclaustron.Base.{
  ℕ, suc, ◌+◌, ◌*◌, ◌/◌, ◌%◌, ◌<◌, ◌≤◌, ◌≡◌, refl, true, false, List, [], ◌∷◌, ◌++◌, ltb, arith, ap,
  ◌∙◌, length, length-append, set,
}
use iclaustron.Base64.{
  done, decode_char, decode_quad, Quad, put, put_bytes, decode_loop, base64_decode, encode_value,
  encode_one, encode_two, encode_three, encode_loop, real_quads,
}
use iclaustron.Base64.Table.{quad_step}
use iclaustron.Base64.Encode.{AllBytes, strip, quads, strip-encode_loop}

pub quad_three :
    (a b c : ℕ)
    → a < 256
    → b < 256
    → c < 256
    → decode_quad 4 (encode_three a b c) 3 false
      ≡ done (record {
        chars = (a / 4) ∷ ((a % 4) * 16 + b / 16) ∷ ((b % 16) * 4 + c / 64) ∷ (c % 64) ∷ [];
        conv_len = 3;
        last = false;
      })
unfolding encode_three decode_quad
quad_three a b c small_a small_b small_c =
    rw
      (
        quad_step 3 (a / 4) _ 3 false (omega arith),
        quad_step 2 ((a % 4) * 16 + b / 16) _ 3 false (omega arith),
        quad_step 1 ((b % 16) * 4 + c / 64) _ 3 false (omega arith),
        quad_step 0 (c % 64) _ 3 false (omega arith),
      )
      refl

pub quad_two :
    (a b : ℕ)
    → a < 256
    → b < 256
    → decode_quad 4 (encode_two a b) 3 false
      ≡ done (record {
        chars = (a / 4) ∷ ((a % 4) * 16 + b / 16) ∷ ((b % 16) * 4) ∷ 0 ∷ [];
        conv_len = 2;
        last = true;
      })
unfolding encode_two decode_quad decode_char
quad_two a b small_a small_b =
    rw
      (
        quad_step 3 (a / 4) _ 3 false (omega arith),
        quad_step 2 ((a % 4) * 16 + b / 16) _ 3 false (omega arith),
        quad_step 1 ((b % 16) * 4) _ 3 false (omega arith),
      )
      refl

pub quad_one :
    (a : ℕ)
    → a < 256
    → decode_quad 4 (encode_one a) 3 false
      ≡ done (record { chars = (a / 4) ∷ ((a % 4) * 16) ∷ 0 ∷ 0 ∷ []; conv_len = 1; last = true })
unfolding encode_one decode_quad decode_char
quad_one a small =
    rw
      (
        quad_step 3 (a / 4) _ 3 false (omega arith),
        quad_step 2 ((a % 4) * 16) _ 3 false (omega arith),
      )
      refl

set-append : (d r : List ℕ) (k v : ℕ) → set (d ++ r) (length d + k) v ≡ d ++ set r k v
set-append [] r k v = ap (λ i. set r i v) (omega arith)
set-append (x ∷ d) r k v =
    let index : suc (length d) + k ≡ suc (length d + k) = omega arith in
    ap (λ i. set (x ∷ (d ++ r)) i v) index ∙ ap (◌∷◌ x) (set-append d r k v)

put-append :
    (d r : List ℕ) (i k v : ℕ)
    → i ≡ length d + k
    → k < length r
    → v < 256
    → put (d ++ r) i v ≡ done (d ++ set r k v)
unfolding put
put-append d r i k v at inside byte =
    let there : ltb i (length (d ++ r)) ≡ true = ground (arith, length-append d r) in
    let small : v % 256 ≡ v = omega arith in
    rw there (rw small (rw at (ap done (set-append d r k v))))

put_bytes-at :
    (d : List ℕ) (x y z : ℕ) (r : List ℕ) (c1 c2 c3 c4 : ℕ)
    → c1 < 64
    → c2 < 64
    → c3 < 64
    → c4 < 64
    → put_bytes (d ++ x ∷ y ∷ z ∷ r) (length d) (c1 ∷ c2 ∷ c3 ∷ c4 ∷ [])
      ≡ done (d ++ (c1 * 4 + c2 / 16) ∷ ((c2 % 16) * 16 + c3 / 4) ∷ ((c3 % 4) * 64 + c4) ∷ r)
unfolding put_bytes
put_bytes-at d x y z r c1 c2 c3 c4 s1 s2 s3 s4 =
    rw
      (put-append d (x ∷ y ∷ z ∷ r) (length d) 0 (c1 * 4 + c2 / 16) (omega arith) (omega arith)
        (omega arith))
      (rw
        (put-append d ((c1 * 4 + c2 / 16) ∷ y ∷ z ∷ r) (length d + 1) 1 ((c2 % 16) * 16 + c3 / 4)
          refl (omega arith) (omega arith))
        (put-append d ((c1 * 4 + c2 / 16) ∷ ((c2 % 16) * 16 + c3 / 4) ∷ z ∷ r) (length d + 2) 2
          ((c3 % 4) * 64 + c4) refl (omega arith) (omega arith)))

-- The step of the loop over a quad that the encoder wrote.
pub loop_step :
    (dest_len tot b1 b2 b3 : ℕ) (quad : Quad) (d : List ℕ) (x y z : ℕ) (r : List ℕ) (p q s t : ℕ)
    (src : List ℕ)
    → length d < dest_len
    → decode_quad 4 (p ∷ q ∷ s ∷ t ∷ []) 3 false ≡ done quad
    → put_bytes (d ++ x ∷ y ∷ z ∷ r) (length d) quad.chars ≡ done (d ++ b1 ∷ b2 ∷ b3 ∷ r)
    → decode_loop dest_len (d ++ x ∷ y ∷ z ∷ r) (length d) tot false (p ∷ q ∷ s ∷ t ∷ src)
      ≡ decode_loop dest_len
          (d ++ b1 ∷ b2 ∷ b3 ∷ r)
          (length d + 3)
          (tot + quad.conv_len)
          quad.last
          src
unfolding decode_loop
loop_step dest_len tot b1 b2 b3 quad d x y z r p q s t src room read written =
    let open_room : ltb (length d) dest_len ≡ true = ground arith in
    rw open_room (rw read (rw written refl))

pub with_cells :
    (P : List ℕ → Type 0) (r : List ℕ)
    → 3 ≤ length r
    → ((x y z : ℕ) (r' : List ℕ) → length r ≡ 3 + length r' → P (x ∷ y ∷ z ∷ r'))
    → P r
with_cells P [] room each = absurd (omega arith)
with_cells P (x ∷ []) room each = absurd (omega arith)
with_cells P (x ∷ y ∷ []) room each = absurd (omega arith)
with_cells P (x ∷ y ∷ z ∷ r) room each = each x y z r (omega arith)

pub shift : (d r : List ℕ) (a b c : ℕ) → (d ++ a ∷ b ∷ c ∷ []) ++ r ≡ d ++ a ∷ b ∷ c ∷ r
shift [] r a b c = refl
shift (x ∷ d) r a b c = ap (◌∷◌ x) (shift d r a b c)

pub put_bytes-same :
    (d : List ℕ) (x y z : ℕ) (r : List ℕ) (c1 c2 c3 c4 a b c : ℕ)
    → c1 < 64
    → c2 < 64
    → c3 < 64
    → c4 < 64
    → c1 * 4 + c2 / 16 ≡ a
    → (c2 % 16) * 16 + c3 / 4 ≡ b
    → (c3 % 4) * 64 + c4 ≡ c
    → put_bytes (d ++ x ∷ y ∷ z ∷ r) (length d) (c1 ∷ c2 ∷ c3 ∷ c4 ∷ []) ≡ done (d ++ a ∷ b ∷ c ∷ r)
put_bytes-same d x y z r c1 c2 c3 c4 a b c s1 s2 s3 s4 e1 e2 e3 =
    put_bytes-at d x y z r c1 c2 c3 c4 s1 s2 s3 s4 ∙ rw e1 (rw e2 (rw e3 refl))

-- The loop behind the bytes `d` puts the bytes of `src` in their place.
Decodes : ℕ → List ℕ → ℕ → List ℕ → List ℕ → Type 0
Decodes n d tot src r =
    (rest : List ℕ) × (decode_loop n (d ++ r) (length d) tot false (quads src)
      ≡ done (d ++ (src ++ rest), tot + length src))

decode_loop-Decodes :
    (src : List ℕ) (n tot : ℕ) (d r : List ℕ)
    → AllBytes src
    → n ≡ length d + length r
    → 3 * ((length src + 2) / 3) ≤ length r
    → Decodes n d tot src r
unfolding Decodes quads decode_loop
decode_loop-Decodes [] n tot d r bytes sized room = (r, ap (λ t. done (d ++ r, t)) (omega arith))
decode_loop-Decodes (a ∷ []) n tot d r bytes sized room =
    with_cells (Decodes n d tot (a ∷ [])) r (omega arith) (λ x y z r' longer. (
      0 ∷ 0 ∷ r',
      unfold encode_one in
          (loop_step n tot a 0 0 _ d x y z r' (encode_value (a / 4)) (encode_value ((a % 4) * 16))
            61 61 [] (omega arith) (quad_one a bytes.0)
            (put_bytes-same d x y z r' (a / 4) ((a % 4) * 16) 0 0 a 0 0 (omega arith) (omega arith)
              (omega arith) (omega arith) (omega arith) (omega arith) (omega arith))),
    ))
decode_loop-Decodes (a ∷ b ∷ []) n tot d r bytes sized room =
    with_cells (Decodes n d tot (a ∷ b ∷ [])) r (omega arith) (λ x y z r' longer. (
      0 ∷ r',
      unfold encode_two in
          (loop_step n tot a b 0 _ d x y z r' (encode_value (a / 4))
            (encode_value ((a % 4) * 16 + b / 16)) (encode_value ((b % 16) * 4)) 61 [] (omega arith)
            (quad_two a b bytes.0 bytes.1.0)
            (put_bytes-same d x y z r' (a / 4) ((a % 4) * 16 + b / 16) ((b % 16) * 4) 0 a b 0
              (omega arith) (omega arith) (omega arith) (omega arith) (omega arith) (omega arith)
              (omega arith))),
    ))
decode_loop-Decodes (a ∷ b ∷ c ∷ src) n tot d r bytes sized room =
    with_cells (Decodes n d tot (a ∷ b ∷ c ∷ src)) r (omega arith) (λ x y z r' longer.
      let (rest, ih) =
        decode_loop-Decodes src n (tot + 3) (d ++ a ∷ b ∷ c ∷ []) r' bytes.1.1.1
          (omega (arith, length-append d (a ∷ b ∷ c ∷ []))) (omega arith) in
      let moved : decode_loop n (d ++ a ∷ b ∷ c ∷ r') (length d + 3) (tot + 3) false (quads src)
          ≡ done (d ++ a ∷ b ∷ c ∷ (src ++ rest), (tot + 3) + length src) =
        rw (shift d r' a b c, shift d (src ++ rest) a b c, length-append d (a ∷ b ∷ c ∷ [])) at
          ih in
      let total : (tot + 3) + length src ≡ tot + length (a ∷ b ∷ c ∷ src) = omega arith in
      (
        rest,
        unfold encode_three in
            (loop_step n tot a b c _ d x y z r' (encode_value (a / 4))
              (encode_value ((a % 4) * 16 + b / 16)) (encode_value ((b % 16) * 4 + c / 64))
              (encode_value (c % 64)) (quads src) (omega arith)
              (quad_three a b c bytes.0 bytes.1.0 bytes.1.1.0)
              (put_bytes-same d x y z r' (a / 4) ((a % 4) * 16 + b / 16) ((b % 16) * 4 + c / 64)
                (c % 64) a b c (omega arith) (omega arith) (omega arith) (omega arith) (omega arith)
                (omega arith) (omega arith)))
            ∙ moved
            ∙ ap (λ t. done (d ++ a ∷ b ∷ c ∷ (src ++ rest), t)) total,
      ))

-- The text that the encoder writes for the bytes `src`, less its line ends, decodes to `src` in an area with
-- room for three bytes for each quad: it starts with `src`, and its length is set.
pub base64_decode-encode_loop :
    (src dest : List ℕ)
    → AllBytes src
    → 3 * real_quads (length src) ≤ length dest
    → (rest : List ℕ) × (base64_decode dest (strip (encode_loop 0 src))
        ≡ done (src ++ rest, length src))
unfolding base64_decode Decodes real_quads
base64_decode-encode_loop src dest bytes room =
    let (rest, run) = decode_loop-Decodes src (length dest) 0 [] dest bytes (omega arith) room in
    let none_before : 0 + length src ≡ length src = omega arith in
    (rest, rw (strip-encode_loop 0 src bytes) (run ∙ ap (λ t. done (src ++ rest, t)) none_before))
