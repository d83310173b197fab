-- ===== src/MemoryContainer/Alloc.antt =====
-- The regions that a memory container hands out.
use iclaustron.Base.{
  ℕ, ◌+◌, ◌-◌, ◌^◌, ◌<◌, ◌≤◌, ◌≡◌, ◌≢◌, ◌⊎◌, inl, inr, refl, Bool, true, false, ◌&&◌, Option, none,
  some, ltb, leb, ◌==◌, if◌then◌else◌, length, max, arith,
}
use iclaustron.MemoryContainer.{
  Container, align, realloc_buf_array, add_buffer, alloc_buffer, alloc,
}

-- Two areas, by their start and size, that share no byte.
abbrev pub Apart : ℕ → ℕ → ℕ → ℕ → Type 0
Apart a n b m = (a + n ≤ b) ⊎ (b + m ≤ a)

if_rule :
    {A : Type 0} (P : A → Type 0) (b : Bool) (m n : A)
    → (b ≡ true → P m)
    → (b ≡ false → P n)
    → P (if b then m else n)
if_rule P true m n then_part else_part = then_part refl
if_rule P false m n then_part else_part = else_part refl

Apart-prefix : (a n b m k : ℕ) → k ≤ m → Apart a n b m → Apart a n b k
Apart-prefix a n b m k less (inl h) = inl h
Apart-prefix a n b m k less (inr h) = inr (omega arith)

Apart-rest : (a n b m k j : ℕ) → k + j ≤ m → Apart a n b m → Apart a n (b + k) j
Apart-rest a n b m k j less (inl h) = inl (omega arith)
Apart-rest a n b m k j less (inr h) = inr (omega arith)

Apart-sym : (a n b m : ℕ) → Apart a n b m → Apart b m a n
Apart-sym a n b m (inl h) = inr h
Apart-sym a n b m (inr h) = inl h

-- A granted request for `s` bytes: its region, another area, and the free area behind it are apart.
Serves : (a n s : ℕ) → ℕ × Container → Type 0
Serves a n s (p, mc) =
    p ≢ 0
    → Apart a n p s
      × Apart a n mc.current_buf mc.current_free_len
      × Apart p s mc.current_buf mc.current_free_len

module _ (a n s new_buf total : ℕ) where
  add_buffer-Serves :
      (mc : Container) (inx base : ℕ)
      → Apart a n mc.current_buf mc.current_free_len
      → Apart a n new_buf (max base s)
      → Apart mc.current_buf mc.current_free_len new_buf (max base s)
      → Serves a n s (add_buffer mc inx s (if ltb base s then s else base) new_buf total)
  unfolding Serves add_buffer
  add_buffer-Serves mc inx base other new fresh =
      if_rule (Serves a n s) (s == (if ltb base s then s else base)) _ _
        (λ e real. (
          Apart-prefix a n new_buf (max base s) s (omega arith) new,
          other,
          Apart-sym mc.current_buf mc.current_free_len new_buf s (
              Apart-prefix mc.current_buf mc.current_free_len new_buf (max base s) s (omega arith)
                fresh),
        ))
        (λ e real. (
          Apart-prefix a n new_buf (max base s) s (omega arith) new,
          Apart-rest a n new_buf (max base s) s ((if ltb base s then s else base) - s)
              (ground arith) new,
          inl (omega arith),
        ))

  -- The array may grow before the buffer is added.
  Grown : Container → Option Container → Type 0
  Grown mc none = Unit
  Grown mc (some mc') =
      (mc'.current_buf ≡ mc.current_buf) × (mc'.current_free_len ≡ mc.current_free_len)

  realloc-Grown :
      (mc : Container) (size : ℕ) (granted : Bool) → Grown mc (realloc_buf_array mc size granted)
  unfolding Grown realloc_buf_array
  realloc-Grown mc size true = (refl, refl)
  realloc-Grown mc size false = tt

  same-Grown : (mc : Container) → Grown mc (some mc)
  unfolding Grown
  same-Grown mc = (refl, refl)

  behind_growth :
      (mc : Container) (inx base : ℕ) (grown : Option Container)
      → Grown mc grown
      → Apart a n mc.current_buf mc.current_free_len
      → Apart a n new_buf (max base s)
      → Apart mc.current_buf mc.current_free_len new_buf (max base s)
      → Serves a n s (elim grown [
        | none ↦ (0, mc)
        | some mc' ↦
            if new_buf == 0
            then (0, mc')
            else add_buffer mc' inx s (if ltb base s then s else base) new_buf total
      ])
  unfolding Serves Grown
  behind_growth mc inx base none same other new fresh = λ real. absurd (real refl)
  behind_growth mc inx base (some mc') same other new fresh =
      if_rule (Serves a n s) (new_buf == 0) _ _ (λ e real. absurd (real refl))
        (λ e.
          add_buffer-Serves mc' inx base (rw (same.0, same.1) other) new
            (rw (same.0, same.1) fresh))

  choose-Grown :
      (b : Bool) (mc : Container) (size : ℕ) (granted : Bool)
      → Grown mc (if b then realloc_buf_array mc size granted else some mc)
  choose-Grown true mc size granted = realloc-Grown mc size granted
  choose-Grown false mc size granted = same-Grown mc

  alloc_buffer-Serves :
      (mc : Container) (granted : Bool)
      → Apart a n mc.current_buf mc.current_free_len
      → Apart a n new_buf (max mc.base_size s)
      → Apart mc.current_buf mc.current_free_len new_buf (max mc.base_size s)
      → Serves a n s (alloc_buffer mc s total granted new_buf)
  unfolding alloc_buffer
  alloc_buffer-Serves mc granted other new fresh =
      behind_growth mc (mc.current_buf_inx + 1) mc.base_size
        (if leb (length mc.buf_array) (mc.current_buf_inx + 1)
          then realloc_buf_array mc (length mc.buf_array + 16) granted
          else some mc)
        (choose-Grown (leb (length mc.buf_array) (mc.current_buf_inx + 1)) mc
          (length mc.buf_array + 16) granted)
        other new fresh

module _ (mc : Container) (size : ℕ) (array_granted : Bool) (new_buf a n : ℕ) where
  from_free : ℕ × Container
  from_free = (
    mc.current_buf,
    record mc {
      current_buf = mc.current_buf + align size;
      current_free_len = mc.current_free_len - align size;
      total_size = mc.total_size + align size;
    },
  )

  from_free-Serves :
      leb (align size) mc.current_free_len ≡ true
      → Apart a n mc.current_buf mc.current_free_len
      → Serves a n (align size) from_free
  unfolding Serves from_free
  from_free-Serves fits other = λ real. (
    Apart-prefix a n mc.current_buf mc.current_free_len (align size) (ground arith) other,
    Apart-rest a n mc.current_buf mc.current_free_len (align size)
        (mc.current_free_len - align size) (ground arith) other,
    inl (omega arith),
  )

  refused-Serves : Serves a n (align size) (0, mc)
  unfolding Serves
  refused-Serves = λ real. absurd (real refl)

  alloc-Serves :
      Apart a n mc.current_buf mc.current_free_len
      → Apart a n new_buf (max mc.base_size (align size))
      → Apart mc.current_buf mc.current_free_len new_buf (max mc.base_size (align size))
      → Serves a n (align size) (alloc mc size array_granted new_buf)
  unfolding alloc from_free
  alloc-Serves other new fresh =
      let total = mc.total_size + align size in
      let behind = alloc_buffer mc (align size) total array_granted new_buf in
      if_rule (Serves a n (align size)) (ltb 0 mc.max_size && ltb mc.max_size total) (0, mc)
        (if leb (align size) mc.current_free_len then from_free else behind) (λ e. refused-Serves)
        (λ e.
          if_rule (Serves a n (align size)) (leb (align size) mc.current_free_len) from_free behind
            (λ fits. from_free-Serves fits other)
            (λ full.
              alloc_buffer-Serves a n (align size) new_buf total mc array_granted other new fresh))

  size-align : size + 7 < 2 ^ 32 → size ≤ align size
  unfolding align
  size-align small = omega arith

  alloc-Apart_aligned :
      Apart a n mc.current_buf mc.current_free_len
      → Apart a n new_buf (max mc.base_size (align size))
      → Apart mc.current_buf mc.current_free_len new_buf (max mc.base_size (align size))
      → (alloc mc size array_granted new_buf).0 ≢ 0
      → let (p, mc') = alloc mc size array_granted new_buf in
        Apart a n p (align size)
        × Apart a n mc'.current_buf mc'.current_free_len
        × Apart p (align size) mc'.current_buf mc'.current_free_len
  alloc-Apart_aligned other new fresh real = unfold Serves in (alloc-Serves other new fresh real)

  -- A request of fewer than 2^32 - 7 bytes that is granted gets a region of its own with all the bytes that were asked
  -- for, when the buffer that the system gives for it is apart from the free space and from the area of `n` bytes at
  -- `a`: an area apart from the free space is apart from the region and from the free space that is left, and so is
  -- the region from that free space.
  pub alloc-Apart :
      size + 7 < 2 ^ 32
      → Apart a n mc.current_buf mc.current_free_len
      → Apart a n new_buf (max mc.base_size (align size))
      → Apart mc.current_buf mc.current_free_len new_buf (max mc.base_size (align size))
      → (alloc mc size array_granted new_buf).0 ≢ 0
      → let (p, mc') = alloc mc size array_granted new_buf in
        Apart a n p size
        × Apart a n mc'.current_buf mc'.current_free_len
        × Apart p size mc'.current_buf mc'.current_free_len
  alloc-Apart small other new fresh real =
      let (p, mc') = alloc mc size array_granted new_buf in
      let (first, second, third) = alloc-Apart_aligned other new fresh real in
      let whole : size ≤ align size = size-align small in
      (
        Apart-prefix a n p (align size) size whole first,
        second,
        Apart-sym mc'.current_buf mc'.current_free_len p size (
            Apart-prefix mc'.current_buf mc'.current_free_len p (align size) size whole
              (Apart-sym p (align size) mc'.current_buf mc'.current_free_len third)),
      )
