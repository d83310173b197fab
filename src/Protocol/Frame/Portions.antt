-- ===== src/Protocol/Frame/Portions.antt =====
-- The rounds of `ic_rec_with_cr`: the bytes that have arrived and those to come stay one stream.
use iclaustron.Base.{
  ℕ, zero, suc, ◌+◌, ◌-◌, ◌<◌, ◌≤◌, ◌≡◌, refl, sym, ap, ◌∙◌, none, some, List, [], ◌∷◌, ◌++◌, ltb,
  length, take, drop, min, arith, length-append, length-take, length-drop, take-append-drop,
  Bool-cases, inl, inr,
}
use iclaustron.Base.Slices.{take_front, take_behind, append_assoc}
use iclaustron.Protocol.{
  Reader, Link, Answer, arrives, no_data, read_error, Reply, got, put_behind, complete_line,
  received, reported, rec_loop, carriage_return,
}
use iclaustron.Protocol.Frame.{
  NoReturn, AllArrive, Reports, whole_line, part_line, length-held, complete_line-some,
  complete_line-none,
}

pub drop_line : (text h : List ℕ) → drop (length text + 1) (text ++ carriage_return ∷ h) ≡ h
drop_line [] h = refl
drop_line (c ∷ text) h =
    ap (λ n. drop n (c ∷ (text ++ carriage_return ∷ h)))
      (let e : length (c ∷ text) + 1 ≡ suc (length text + 1) = omega arith in e)
    ∙ drop_line text h

-- What is received is not empty where something is sent and asked for, and what is not received stays pending.
received-some :
    (n size_to_read : ℕ) (pending : List ℕ)
    → 0 < n
    → 0 < size_to_read
    → 0 < length pending
    → 0 < length (received n size_to_read pending)
unfolding received
received-some n size_to_read pending asked room some_left =
    omega (arith, length-take (min n size_to_read) pending)

received-le :
    (n size_to_read : ℕ) (pending : List ℕ)
    → length (received n size_to_read pending) ≤ size_to_read
unfolding received
received-le n size_to_read pending = omega (arith, length-take (min n size_to_read) pending)

take-append-drop_rest : (k : ℕ) (xs : List ℕ) → take k xs ++ drop (length (take k xs)) xs ≡ xs
take-append-drop_rest zero xs = refl
take-append-drop_rest (suc k) [] = refl
take-append-drop_rest (suc k) (x ∷ xs) = ap (◌∷◌ x) (take-append-drop_rest k xs)

received-rest :
    (n size_to_read : ℕ) (pending : List ℕ)
    → received n size_to_read pending ++ drop (length (received n size_to_read pending)) pending
      ≡ pending
unfolding received
received-rest n size_to_read pending = take-append-drop_rest (min n size_to_read) pending

length-put_behind :
    (buf : List ℕ) (size : ℕ) (bytes : List ℕ)
    → size + length bytes ≤ length buf
    → length (put_behind buf size bytes) ≡ length buf
unfolding put_behind
length-put_behind buf size bytes le =
    length-append (take size buf) (bytes ++ drop (size + length bytes) buf)
    ∙ omega (
      arith,
      length-append bytes (drop (size + length bytes) buf),
      length-take size buf,
      length-drop (size + length bytes) buf,
    )

take-put_behind :
    (buf : List ℕ) (size : ℕ) (bytes : List ℕ)
    → size ≤ length buf
    → take (size + length bytes) (put_behind buf size bytes) ≡ take size buf ++ bytes
unfolding put_behind
take-put_behind buf size bytes le =
    take_behind (size + length bytes) (length bytes) (take size buf)
      (bytes ++ drop (size + length bytes) buf) (omega (arith, length-held size buf le))
    ∙ ap (λ xs. take size buf ++ xs)
        (take_front (length bytes) bytes (drop (size + length bytes) buf) refl)

-- A line in the buffer is reported whatever the socket would answer.
rec_loop-report :
    (answers : List Answer) (pending : List ℕ) (size : ℕ) (r : Reader) (inx : ℕ)
    → complete_line r.read_buf size ≡ some inx
    → rec_loop answers pending size r
      ≡ (record { reader = reported r size inx; pending = pending; answers = answers }, got inx)
unfolding rec_loop
rec_loop-report [] pending size r inx e = rw (e, rec_loop)
rec_loop-report (no_data ∷ answers) pending size r inx e = rw (e, rec_loop)
rec_loop-report (read_error code ∷ answers) pending size r inx e = rw (e, rec_loop)
rec_loop-report (arrives n ∷ answers) pending size r inx e = rw (e, rec_loop)

after_bytes-some :
    (bytes : List ℕ) (none_left rest : Link × Reply ℕ)
    → 0 < length bytes
    → (elim bytes [ [] ↦ none_left | b ∷ bs ↦ rest ]) ≡ rest
after_bytes-some [] none_left rest some_bytes = absurd (omega arith)
after_bytes-some (b ∷ bs) none_left rest some_bytes = refl

-- Where the buffer has a part of the line only, the next portion is read.
rec_loop-more :
    (n : ℕ) (answers : List Answer) (pending : List ℕ) (size : ℕ) (r : Reader)
    → complete_line r.read_buf size ≡ none
    → 0 < length (received n (length r.read_buf - size) pending)
    → rec_loop (arrives n ∷ answers) pending size r
      ≡ rec_loop answers
          (drop (length (received n (length r.read_buf - size) pending)) pending)
          (size + length (received n (length r.read_buf - size) pending))
          (record r {
            read_buf = put_behind r.read_buf size (received n (length r.read_buf - size) pending);
          })
unfolding rec_loop
rec_loop-more n answers pending size r incomplete some_bytes =
    rw (incomplete, rec_loop)
      (after_bytes-some (received n (length r.read_buf - size) pending) _ _ some_bytes)

module _ (room total : ℕ) (text rest : List ℕ) (no_return : NoReturn text)
    (short : length text < room) where
  -- The first line in the buffer is reported.
  reported-Reports :
      (answers : List Answer) (pending : List ℕ) (size : ℕ) (r : Reader) (h : List ℕ)
      → length r.read_buf ≡ room
      → size ≤ room
      → AllArrive answers
      → take size r.read_buf ≡ text ++ carriage_return ∷ h
      → h ++ pending ≡ rest
      → suc (length text + total) ≤ size + length answers
      → Reports room total text rest (
        record { reader = reported r size (length text); pending = pending; answers = answers },
        got (length text),
      )
  unfolding reported
  reported-Reports answers pending size r h area le arrive held behind enough =
      let left : drop (length text + 1) (take size r.read_buf) ≡ h =
        ap (drop (length text + 1)) held ∙ drop_line text h in
      let sized : size ≡ length text + suc (length h) =
        sym (length-held size r.read_buf (omega arith))
        ∙ ap length held
        ∙ length-append text (carriage_return ∷ h) in
      record {
        result = refl;
        behind = h ++ drop size r.read_buf;
        front =
            sym (take-append-drop size r.read_buf)
            ∙ ap (λ xs. xs ++ drop size r.read_buf) held
            ∙ append_assoc text (carriage_return ∷ h) (drop size r.read_buf);
        remains = ap (λ xs. xs ++ pending) left ∙ behind;
        supplies = record {
          valid = record { pos-le = omega arith; size-le = omega arith };
          area = area;
          arrive = arrive;
          enough = omega (arith, ap length left);
        };
        position = refl;
      }

  pub rec_loop-line :
      (answers : List Answer) (pending : List ℕ) (size : ℕ) (r : Reader)
      → length r.read_buf ≡ room
      → size ≤ room
      → AllArrive answers
      → take size r.read_buf ++ pending ≡ text ++ carriage_return ∷ rest
      → suc (length text + total) ≤ size + length answers
      → Reports room total text rest (rec_loop answers pending size r)
  rec_loop-line [] pending size r area le arrive flow enough =
      let (h, held, behind) =
        whole_line (take size r.read_buf) pending text rest flow
          (omega (arith, length-held size r.read_buf (omega arith))) in
      rw
        (rec_loop-report _ pending size r (length text)
          (complete_line-some r.read_buf size text h (omega arith) no_return held))
        (reported-Reports [] pending size r h area le arrive held behind enough)
  rec_loop-line (no_data ∷ answers) pending size r area le arrive flow enough = absurd arrive
  rec_loop-line (read_error code ∷ answers) pending size r area le arrive flow enough =
      absurd arrive
  rec_loop-line (arrives zero ∷ answers) pending size r area le arrive flow enough = absurd arrive
  rec_loop-line (arrives (suc n) ∷ answers) pending size r area le arrive flow enough =
      elim (Bool-cases (ltb (length text) size)) [
        | inl whole ↦
            let (h, held, behind) =
              whole_line (take size r.read_buf) pending text rest flow
                (ground (arith, length-held size r.read_buf (omega arith))) in
            rw
              (rec_loop-report _ pending size r (length text)
                (complete_line-some r.read_buf size text h (omega arith) no_return held))
              (reported-Reports (arrives (suc n) ∷ answers) pending size r h area le arrive held
                behind enough)
        | inr part ↦
            let small : size ≤ length text = ground arith in
            let bytes : List ℕ = received (suc n) (length r.read_buf - size) pending in
            let incomplete : complete_line r.read_buf size ≡ none =
              complete_line-none r.read_buf size (omega arith) (
                part_line (take size r.read_buf) pending text rest flow
                  (omega (arith, length-held size r.read_buf (omega arith))) no_return) in
            let left : 0 < length pending = omega (
              arith,
              ap length flow,
              length-append (take size r.read_buf) pending,
              length-append text (carriage_return ∷ rest),
              length-held size r.read_buf (omega arith),
            ) in
            let some_bytes : 0 < length bytes =
              received-some (suc n) (length r.read_buf - size) pending (omega arith) (omega arith)
                left in
            let fits : length bytes ≤ length r.read_buf - size =
              received-le (suc n) (length r.read_buf - size) pending in
            rw (rec_loop-more (suc n) answers pending size r incomplete some_bytes) (
              rec_loop-line answers (drop (length bytes) pending) (size + length bytes)
                (record r { read_buf = put_behind r.read_buf size bytes })
                (length-put_behind r.read_buf size bytes (omega arith) ∙ area) (omega arith) arrive
                (ap (λ xs. xs ++ drop (length bytes) pending)
                    (take-put_behind r.read_buf size bytes (omega arith))
                  ∙ append_assoc (take size r.read_buf) bytes (drop (length bytes) pending)
                  ∙ ap (λ xs. take size r.read_buf ++ xs)
                      (received-rest (suc n) (length r.read_buf - size) pending)
                  ∙ flow)
                (omega arith))
      ]
