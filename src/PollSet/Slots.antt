-- ===== src/PollSet/Slots.antt =====
-- The slots of a poll set: how many are taken, which is free, and where a file descriptor is.
use iclaustron.Base.{
  ℕ, zero, suc, ◌+◌, ◌<◌, ◌≡◌, refl, ap, false, none, some, [], ◌∷◌, ◌==◌, length, get_elem?, set,
  arith, Bool-cases, Option-cases, inl, inr,
}
use iclaustron.PollSet.{PollConnection, Slots, first_empty, member_index}

-- How many slots have a member.
unfoldable pub occupied : Slots → ℕ
occupied [] = 0
occupied (none ∷ slots) = occupied slots
occupied (some c ∷ slots) = suc (occupied slots)

-- No member has the file descriptor.
abbrev pub IsAbsent : ℕ → Slots → Type 0
IsAbsent fd [] = Unit
IsAbsent fd (none ∷ slots) = IsAbsent fd slots
IsAbsent fd (some c ∷ slots) = ((c.fd == fd) ≡ false) × IsAbsent fd slots

pub first_empty-some :
    (slots : Slots)
    → occupied slots < length slots
    → (i : ℕ) × (first_empty slots ≡ some i) × (get_elem? slots i ≡ some none) × (i < length slots)
unfolding first_empty occupied
first_empty-some [] less = absurd (omega arith)
first_empty-some (none ∷ slots) less = (0, refl, refl, omega arith)
first_empty-some (some c ∷ slots) less =
    let (i, found, empty, within) = first_empty-some slots (omega arith) in
    (suc i, rw found refl, empty, omega arith)

pub occupied-set-some :
    (slots : Slots) (i : ℕ) (c : PollConnection)
    → get_elem? slots i ≡ some none
    → occupied (set slots i (some c)) ≡ occupied slots + 1
unfolding occupied
occupied-set-some [] i c e = cc
occupied-set-some (none ∷ slots) zero c e = omega arith
occupied-set-some (some d ∷ slots) zero c e = cc
occupied-set-some (none ∷ slots) (suc i) c e = occupied-set-some slots i c e
occupied-set-some (some d ∷ slots) (suc i) c e = omega (arith, occupied-set-some slots i c e)

pub occupied-set-none :
    (slots : Slots) (i : ℕ) (c : PollConnection)
    → get_elem? slots i ≡ some (some c)
    → occupied (set slots i none) + 1 ≡ occupied slots
unfolding occupied
occupied-set-none [] i c e = cc
occupied-set-none (none ∷ slots) zero c e = cc
occupied-set-none (some d ∷ slots) zero c e = omega arith
occupied-set-none (none ∷ slots) (suc i) c e = occupied-set-none slots i c e
occupied-set-none (some d ∷ slots) (suc i) c e = omega (arith, occupied-set-none slots i c e)

pub set-set_back :
    (slots : Slots) (i : ℕ) (c : PollConnection)
    → get_elem? slots i ≡ some none
    → set (set slots i (some c)) i none ≡ slots
set-set_back [] i c e = refl
set-set_back (none ∷ slots) zero c e = refl
set-set_back (some d ∷ slots) zero c e = cc
set-set_back (s ∷ slots) (suc i) c e = ap (◌∷◌ s) (set-set_back slots i c e)

pub member_index-some :
    (fd : ℕ) (slots : Slots) (i : ℕ)
    → member_index fd slots ≡ some i
    → (c : PollConnection) × (get_elem? slots i ≡ some (some c)) × (c.fd ≡ fd)
unfolding member_index
member_index-some fd [] i found = cc
member_index-some fd (none ∷ slots) i found = elim (Option-cases (member_index fd slots)) [
  | inl missing ↦ absurd (ground (arith, missing))
  | inr (j, at_j) ↦
      let (c, here, same) = member_index-some fd slots j at_j in
      (c, ground (arith, at_j, here), same)
]
member_index-some fd (some d ∷ slots) i found = elim (Bool-cases (d.fd == fd)) [
  | inl e ↦ (d, ground (arith, e), ground (arith, e))
  | inr e ↦ elim (Option-cases (member_index fd slots)) [
    | inl missing ↦ absurd (ground (arith, e, missing))
    | inr (j, at_j) ↦
        let (c, here, same) = member_index-some fd slots j at_j in
        (c, ground (arith, e, at_j, here), same)
  ]
]

pub member_index-none : (fd : ℕ) (slots : Slots) → member_index fd slots ≡ none → IsAbsent fd slots
unfolding member_index
member_index-none fd [] missing = tt
member_index-none fd (none ∷ slots) missing = elim (Option-cases (member_index fd slots)) [
  | inl e ↦ member_index-none fd slots e
  | inr (j, at_j) ↦ absurd (ground (arith, at_j))
]
member_index-none fd (some d ∷ slots) missing = elim (Option-cases (member_index fd slots)) [
  | inl e ↦ (ground (arith, e), member_index-none fd slots e)
  | inr (j, at_j) ↦ absurd (ground (arith, at_j))
]

pub IsAbsent-found :
    (fd : ℕ) (slots : Slots) (i : ℕ) → IsAbsent fd slots → member_index fd slots ≡ some i → ⊥
unfolding member_index
IsAbsent-found fd [] i absent found = cc
IsAbsent-found fd (none ∷ slots) i absent found = elim (Option-cases (member_index fd slots)) [
  | inl missing ↦ ground (arith, missing)
  | inr (j, at_j) ↦ IsAbsent-found fd slots j absent at_j
]
IsAbsent-found fd (some d ∷ slots) i absent found = elim (Option-cases (member_index fd slots)) [
  | inl missing ↦ ground (arith, missing, absent.0)
  | inr (j, at_j) ↦ IsAbsent-found fd slots j absent.1 at_j
]

-- A new member with a file descriptor that no other has is found in its slot.
pub member_index-new :
    (fd : ℕ) (slots : Slots) (i : ℕ) (c : PollConnection)
    → IsAbsent fd slots
    → i < length slots
    → c.fd ≡ fd
    → member_index fd (set slots i (some c)) ≡ some i
unfolding member_index
member_index-new fd [] i c absent less same = absurd (omega arith)
member_index-new fd (s ∷ slots) zero c absent less same = ground arith
member_index-new fd (none ∷ slots) (suc i) c absent less same =
    rw (member_index-new fd slots i c absent (omega arith) same) refl
member_index-new fd (some d ∷ slots) (suc i) c absent less same =
    rw (absent.0) (rw (member_index-new fd slots i c absent.1 (omega arith) same) refl)

-- A member in front of the new one is found first.
pub member_index-old :
    (fd : ℕ) (slots : Slots) (i j : ℕ) (c : PollConnection)
    → member_index fd slots ≡ some j
    → j < i
    → member_index fd (set slots i (some c)) ≡ some j
unfolding member_index
member_index-old fd [] i j c found less = cc
member_index-old fd (s ∷ slots) zero j c found less = absurd (omega arith)
member_index-old fd (none ∷ slots) (suc i) j c found less =
    elim (Option-cases (member_index fd slots)) [
      | inl missing ↦ absurd (ground (arith, missing))
      | inr (k, at_k) ↦ ground (arith, at_k, member_index-old fd slots i k c at_k)
    ]
member_index-old fd (some d ∷ slots) (suc i) j c found less = elim (Bool-cases (d.fd == fd)) [
  | inl e ↦ ground (arith, e)
  | inr e ↦ elim (Option-cases (member_index fd slots)) [
    | inl missing ↦ absurd (ground (arith, e, missing))
    | inr (k, at_k) ↦ ground (arith, e, at_k, member_index-old fd slots i k c at_k)
  ]
]
