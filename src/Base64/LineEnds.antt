-- ===== src/Base64/LineEnds.antt =====
-- The decoder at the line ends that the encoder writes.
use iclaustron.Base.{
  ℕ, ◌+◌, ◌*◌, ◌/◌, ◌%◌, ◌<◌, ◌≤◌, ◌≡◌, refl, Bool, false, List, [], ◌∷◌, ◌++◌, ◌==◌, if◌then◌else◌,
  arith, ◌∙◌, length, length-append, Bool-cases, inl, inr,
}
use iclaustron.Base64.{
  refused, decode_char, decode_quad, decode_loop, base64_decode, encode_value, encode_one,
  encode_two, encode_three, last_line, encode_loop, real_quads,
}
use iclaustron.Base64.Encode.{AllBytes}
use iclaustron.Base64.RoundTrip.{
  quad_one, quad_two, quad_three, put_bytes-same, loop_step, with_cells, shift,
}

-- Where a line end stands, the decoder ends with return value 1.
decode_loop-line_end :
    (n : ℕ) (dest : List ℕ) (inx tot : ℕ) (last : Bool) (src : List ℕ)
    → decode_loop n dest inx tot last (10 ∷ src) ≡ refused
unfolding decode_loop decode_quad decode_char
decode_loop-line_end n dest inx tot last [] = ground arith
decode_loop-line_end n dest inx tot last (a ∷ []) = ground arith
decode_loop-line_end n dest inx tot last (a ∷ b ∷ []) = ground arith
decode_loop-line_end n dest inx tot last (a ∷ b ∷ c ∷ src) = ground arith

last_line-cons : (cr : ℕ) → last_line (cr + 1) ≡ 10 ∷ []
unfolding last_line
last_line-cons cr = let some_quads : (cr + 1 == 0) ≡ false = ground arith in rw some_quads refl

RefusedAt : ℕ → List ℕ → ℕ → ℕ → List ℕ → List ℕ → Type 0
RefusedAt n d tot cr src r =
    decode_loop n (d ++ r) (length d) tot false (encode_loop cr src) ≡ refused

decode_loop-RefusedAt :
    (src : List ℕ) (n tot cr : ℕ) (d r : List ℕ)
    → AllBytes src
    → n ≡ length d + length r
    → 3 * ((length src + 2) / 3) ≤ length r
    → 0 < cr + length src
    → RefusedAt n d tot cr src r
unfolding RefusedAt encode_loop
decode_loop-RefusedAt [] n tot cr d r bytes sized room some_text =
    let some_quads : last_line cr ≡ 10 ∷ [] =
      unfold last_line in (let e : (cr == 0) ≡ false = ground arith in rw e refl) in
    rw some_quads (decode_loop-line_end n (d ++ r) (length d) tot false [])
decode_loop-RefusedAt (a ∷ []) n tot cr d r bytes sized room some_text =
    with_cells (RefusedAt n d tot cr (a ∷ [])) r (omega arith) (λ x y z r' longer.
      rw (last_line-cons cr) (
        unfold encode_one in
        (loop_step n tot a 0 0 _ d x y z r' (encode_value (a / 4)) (encode_value ((a % 4) * 16)) 61
          61 (10 ∷ []) (omega arith) (quad_one a bytes.0)
          (put_bytes-same d x y z r' (a / 4) ((a % 4) * 16) 0 0 a 0 0 (omega arith) (omega arith)
            (omega arith) (omega arith) (omega arith) (omega arith) (omega arith)))
        ∙ decode_loop-line_end n _ _ _ _ []))
decode_loop-RefusedAt (a ∷ b ∷ []) n tot cr d r bytes sized room some_text =
    with_cells (RefusedAt n d tot cr (a ∷ b ∷ [])) r (omega arith) (λ x y z r' longer.
      rw (last_line-cons cr) (
        unfold encode_two in
        (loop_step n tot a b 0 _ d x y z r' (encode_value (a / 4))
          (encode_value ((a % 4) * 16 + b / 16)) (encode_value ((b % 16) * 4)) 61 (10 ∷ [])
          (omega arith) (quad_two a b bytes.0 bytes.1.0)
          (put_bytes-same d x y z r' (a / 4) ((a % 4) * 16 + b / 16) ((b % 16) * 4) 0 a b 0
            (omega arith) (omega arith) (omega arith) (omega arith) (omega arith) (omega arith)
            (omega arith)))
        ∙ decode_loop-line_end n _ _ _ _ []))
decode_loop-RefusedAt (a ∷ b ∷ c ∷ src) n tot cr d r bytes sized room some_text =
    with_cells (RefusedAt n d tot cr (a ∷ b ∷ c ∷ src)) r (omega arith) (λ x y z r' longer.
      let ended : List ℕ =
        if cr + 1 == 19 then 10 ∷ encode_loop 0 src else encode_loop (cr + 1) src in
      let going : decode_loop n (d ++ a ∷ b ∷ c ∷ r') (length d + 3) (tot + 3) false
            (encode_loop (cr + 1) src)
          ≡ refused =
        rw (shift d r' a b c, length-append d (a ∷ b ∷ c ∷ [])) at
          (decode_loop-RefusedAt src n (tot + 3) (cr + 1) (d ++ a ∷ b ∷ c ∷ []) r' bytes.1.1.1
            (omega (arith, length-append d (a ∷ b ∷ c ∷ []))) (omega arith) (omega arith)) in
      let behind : decode_loop n (d ++ a ∷ b ∷ c ∷ r') (length d + 3) (tot + 3) false ended
          ≡ refused =
        elim (Bool-cases (cr + 1 == 19)) [
          | inl full ↦ rw full (decode_loop-line_end n _ _ _ _ (encode_loop 0 src))
          | inr open_line ↦ rw open_line going
        ] in
      unfold encode_three in
      (loop_step n tot a b c _ d x y z r' (encode_value (a / 4))
        (encode_value ((a % 4) * 16 + b / 16)) (encode_value ((b % 16) * 4 + c / 64))
        (encode_value (c % 64)) ended (omega arith) (quad_three a b c bytes.0 bytes.1.0 bytes.1.1.0)
        (put_bytes-same d x y z r' (a / 4) ((a % 4) * 16 + b / 16) ((b % 16) * 4 + c / 64) (c % 64)
          a b c (omega arith) (omega arith) (omega arith) (omega arith) (omega arith) (omega arith)
          (omega arith)))
      ∙ behind)

-- What the encoder writes for one byte or more is refused by the decoder, in an area with room for three
-- bytes for each quad: the decoder has no case for the line ends.
pub base64_decode-refuses :
    (a : ℕ) (src dest : List ℕ)
    → AllBytes (a ∷ src)
    → 3 * real_quads (length (a ∷ src)) ≤ length dest
    → base64_decode dest (encode_loop 0 (a ∷ src)) ≡ refused
unfolding base64_decode RefusedAt real_quads
base64_decode-refuses a src dest bytes room =
    decode_loop-RefusedAt (a ∷ src) (length dest) 0 0 [] dest bytes (omega arith) room (omega arith)
