-- ===== src/Protocol/Send/Texts.antt =====
-- The text of a number, as `ic_guint64_str` gives it to a protocol line.
use iclaustron.Base.{
  ℕ, suc, ◌+◌, ◌<◌, ◌≤◌, ◌≡◌, ◌^◌, refl, sym, ap, ◌∙◌, false, Option, none, some, List, [], ◌∷◌,
  ◌++◌, ◌==◌, length, arith, length-append,
}
use iclaustron.Strings.{guint64_str}
use iclaustron.Strings.Decimal.{AllDigits, value, guint64_str-digits}
use iclaustron.Protocol.{space_char}
use iclaustron.Protocol.Frame.{NoReturn}
use iclaustron.Protocol.Send.{to_null}

-- The digits of a number.
pub number_text : ℕ → List ℕ
number_text n = elim (guint64_str n) [ none ↦ [] | some (text, len) ↦ to_null text ]

-- `prefix` and the number, with a space between them.
unfoldable pub number_line : (prefix : List ℕ) → ℕ → List ℕ
number_line prefix n = prefix ++ space_char ∷ number_text n

to_null-digits : (ds : List ℕ) → AllDigits ds → to_null (ds ++ 0 ∷ []) ≡ ds
unfolding to_null
to_null-digits [] all = refl
to_null-digits (d ∷ ds) all =
    let other : (d == 0) ≡ false = ground (arith, all.0) in
    rw other (ap (◌∷◌ d) (to_null-digits ds all.2))

-- What is known of the digits.
pub record IsNumber (n : ℕ) (ds : List ℕ) : Type 0 where
  pub all_digits : AllDigits ds
  pub means : value 0 ds ≡ n
  pub some_digit : 0 < length ds
  pub short : length ds ≤ 20
  pub zero_alone : (n ≡ 0) → ds ≡ 48 ∷ []

text_of : Option (List ℕ × ℕ) → List ℕ
text_of none = []
text_of (some (text, len)) = to_null text

number_text-text_of : (n : ℕ) → number_text n ≡ text_of (guint64_str n)
unfolding number_text text_of
number_text-text_of n = go (guint64_str n)
  where
    go :
        (printed : Option (List ℕ × ℕ))
        → (elim printed [ none ↦ [] | some (text, len) ↦ to_null text ]) ≡ text_of printed
    go none = refl
    go (some (text, len)) = refl

pub number_text-IsNumber : (n : ℕ) → n < 2 ^ 64 → IsNumber n (number_text n)
number_text-IsNumber n less =
    let (ds, run, sum, all, some_digit, short, alone) = guint64_str-digits n less in
    let same : number_text n ≡ ds =
      number_text-text_of n ∙ ap text_of run ∙ (unfold text_of in (to_null-digits ds all)) in
    rw same (record {
      all_digits = all;
      means = sum;
      some_digit = some_digit;
      short = short;
      zero_alone = alone;
    })

-- What `ic_send_with_cr_with_number` gets from `ic_guint64_str`.
pub guint64_str-number_text :
    (n : ℕ)
    → n < 2 ^ 64
    → (text : List ℕ) × (len : ℕ) × (guint64_str n ≡ some (text, len))
      × (to_null text ≡ number_text n)
guint64_str-number_text n less =
    let (ds, run, sum, all, some_digit, short, alone) = guint64_str-digits n less in
    (
      ds ++ 0 ∷ [],
      length ds,
      run,
      sym (number_text-text_of n ∙ ap text_of run ∙ (unfold text_of in refl)),
    )

pub digits-NoReturn : (ds : List ℕ) → AllDigits ds → NoReturn ds
digits-NoReturn [] all = tt
digits-NoReturn (d ∷ ds) all = (ground (arith, all.0), digits-NoReturn ds all.2)

pub NoReturn-append : (xs ys : List ℕ) → NoReturn xs → NoReturn ys → NoReturn (xs ++ ys)
NoReturn-append [] ys left right = right
NoReturn-append (x ∷ xs) ys left right = (left.0, NoReturn-append xs ys left.1 right)

pub number_line-NoReturn :
    (prefix : List ℕ) (n : ℕ) → n < 2 ^ 64 → NoReturn prefix → NoReturn (number_line prefix n)
unfolding number_line
number_line-NoReturn prefix n less no_return =
    NoReturn-append prefix (space_char ∷ number_text n) no_return
      (refl, digits-NoReturn (number_text n) (number_text-IsNumber n less).all_digits)

pub length-number_line :
    (prefix : List ℕ) (n : ℕ)
    → length (number_line prefix n) ≡ length prefix + suc (length (number_text n))
unfolding number_line
length-number_line prefix n = length-append prefix (space_char ∷ number_text n)
