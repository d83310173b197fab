-- ===== src/Strings/Decimal.antt =====
-- The text of a number reads as the number.
use iclaustron.Base.{
  ℕ, zero, suc, ◌+◌, ◌-◌, ◌*◌, ◌/◌, ◌<◌, ◌≤◌, ◌≡◌, ◌^◌, refl, true, false, Option, some, List, [],
  ◌≢◌, Option-cases, sym, length-append, ◌∷◌, ◌++◌, ltb, ◌==◌, if◌then◌else◌, length, arith, ap,
  ◌∙◌, Bool-cases, inl, inr,
}
use iclaustron.Strings.{
  before_end, backwards, reverse_str, with_end, with_length, reversed_text, digit_char, digits,
  number_buf, guint64_str,
}

-- Decimal digits.
abbrev pub AllDigits : List ℕ → Type 0
AllDigits [] = Unit
AllDigits (c ∷ cs) = (48 ≤ c) × (c < 58) × AllDigits cs

-- The number that decimal digits stand for, behind the digits of `acc`.
unfoldable pub value : ℕ → List ℕ → ℕ
value acc [] = acc
value acc (c ∷ cs) = value (acc * 10 + (c - 48)) cs

abbrev pow10 : ℕ → ℕ
pow10 zero = 1
pow10 (suc n) = 10 * pow10 n

value-append :
    (acc : ℕ) (cs : List ℕ) (c : ℕ) → value acc (cs ++ c ∷ []) ≡ value acc cs * 10 + (c - 48)
unfolding value
value-append acc [] c = refl
value-append acc (d ∷ cs) c = value-append (acc * 10 + (d - 48)) cs c

digits-value :
    (n val : ℕ)
    → val < pow10 n
    → (cs : List ℕ) × (digits n 10 val ≡ some cs) × (value 0 (backwards cs) ≡ val) × AllDigits cs
unfolding digits digit_char value backwards
digits-value zero val less =
    let e : (val == 0) ≡ true = ground arith in ([], rw e refl, ground arith, tt)
digits-value (suc n) val less = elim (Bool-cases (val == 0)) [
  | inl e ↦ ([], rw e refl, ground arith, tt)
  | inr e ↦
      let (cs, run, sum, all) = digits-value n (val / 10) (omega arith) in
      let small : ltb (val - (val / 10) * 10) 10 ≡ true = ground arith in
      (
        (48 + (val - (val / 10) * 10)) ∷ cs,
        rw e (rw run (rw small refl)),
        value-append 0 (backwards cs) _ ∙ omega (arith, sum),
        (omega arith, omega arith, all),
      )
]

before_end-digits : (cs : List ℕ) → AllDigits cs → before_end 0 (cs ++ 0 ∷ []) ≡ some cs
unfolding before_end
before_end-digits [] all = refl
before_end-digits (c ∷ cs) all =
    let other : (c == 0) ≡ false = ground (arith, all.0) in
    rw other (rw (before_end-digits cs all.2) refl)

reversed_text-digits :
    (cs : List ℕ)
    → AllDigits cs
    → reversed_text (some cs) ≡ some (backwards cs ++ 0 ∷ [], length cs)
unfolding reversed_text reverse_str with_end with_length
reversed_text-digits cs all =
    ap (λ (before : Option (List ℕ)). with_length (length cs) (with_end 0 before))
      (before_end-digits cs all)

number_buf-run :
    (val : ℕ) → number_buf 10 val ≡ (if val == 0 then some (48 ∷ []) else digits 64 10 val)
unfolding number_buf
number_buf-run val = refl

AllDigits-append : (cs ds : List ℕ) → AllDigits cs → AllDigits ds → AllDigits (cs ++ ds)
AllDigits-append [] ds all more = more
AllDigits-append (c ∷ cs) ds all more = (all.0, all.1, AllDigits-append cs ds all.2 more)

AllDigits-backwards : (cs : List ℕ) → AllDigits cs → AllDigits (backwards cs)
unfolding backwards
AllDigits-backwards [] all = tt
AllDigits-backwards (c ∷ cs) all =
    AllDigits-append (backwards cs) (c ∷ []) (AllDigits-backwards cs all.2) (all.0, all.1, tt)

length-backwards : (cs : List ℕ) → length (backwards cs) ≡ length cs
unfolding backwards
length-backwards [] = refl
length-backwards (c ∷ cs) =
    length-append (backwards cs) (c ∷ []) ∙ omega (arith, length-backwards cs)

-- A number below a power of 10 has no more digits than its exponent, and one digit at least if it is not 0.
digits-length :
    (fuel n val : ℕ) (cs : List ℕ)
    → val < pow10 n
    → digits fuel 10 val ≡ some cs
    → (length cs ≤ n) × (val ≢ 0 → 0 < length cs)
unfolding digits
digits-length zero n val cs less run = ground arith
digits-length (suc fuel) zero val cs less run = ground arith
digits-length (suc fuel) (suc n) val cs less run = elim (Bool-cases (val == 0)) [
  | inl e ↦ ground arith
  | inr e ↦ elim (Option-cases (digits fuel 10 (val / 10))) [
    | inl stuck ↦ ground (arith, stuck)
    | inr (ds, more) ↦ ground (arith, digits-length fuel n (val / 10) ds (omega arith) more)
  ]
]

number_buf-digits :
    (val : ℕ)
    → val < 2 ^ 64
    → (cs : List ℕ) × (number_buf 10 val ≡ some cs)
      × (value 0 (backwards cs) ≡ val)
      × AllDigits cs
      × (0 < length cs)
      × (length cs ≤ 20)
      × (val ≡ 0 → backwards cs ≡ 48 ∷ [])
number_buf-digits val less = elim (Bool-cases (val == 0)) [
  | inl e ↦ (
    48 ∷ [],
    number_buf-run val ∙ rw e refl,
    (unfold value backwards in (ground arith)),
    (omega arith, omega arith, tt),
    omega arith,
    omega arith,
    λ same. (unfold backwards in refl),
  )
  | inr e ↦
      let (cs, run, sum, all) = digits-value 64 val (omega arith) in
      let (le, more) = digits-length 64 20 val cs (omega arith) run in
      (
        cs,
        number_buf-run val ∙ rw e run,
        sum,
        all,
        more (λ z. ground arith),
        le,
        λ same. absurd (ground arith),
      )
]

-- `ic_guint64_str` writes for each number of 64 bits a text with a 0 behind it, and returns its length: one to 20
-- decimal digits that read as the number, and the digit 0 alone for 0.
pub guint64_str-digits :
    (val : ℕ)
    → val < 2 ^ 64
    → (ds : List ℕ) × (guint64_str val ≡ some (ds ++ 0 ∷ [], length ds))
      × (value 0 ds ≡ val)
      × AllDigits ds
      × (0 < length ds)
      × (length ds ≤ 20)
      × (val ≡ 0 → ds ≡ 48 ∷ [])
unfolding guint64_str
guint64_str-digits val less =
    let (cs, run, sum, all, some_digit, short, alone) = number_buf-digits val less in
    (
      backwards cs,
      ap reversed_text run
          ∙ reversed_text-digits cs all
          ∙ ap (λ len. some (backwards cs ++ 0 ∷ [], len)) (sym (length-backwards cs)),
      sum,
      AllDigits-backwards cs all,
      omega (arith, length-backwards cs, some_digit),
      omega (arith, length-backwards cs, short),
      alone,
    )
