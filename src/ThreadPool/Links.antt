-- ===== src/ThreadPool/Links.antt =====
-- The links of a list of threads when one thread leaves it.
use iclaustron.Base.{
  ℕ, ◌<◌, ◌≡◌, ◌⊎◌, refl, true, false, List, [], ◌∷◌, ◌++◌, ◌==◌, if◌then◌else◌, arith, sym, ap,
  ◌∙◌, Bool-cases, inl, inr,
}
use mathlib.Core.Path.{subst}
use iclaustron.Base.Members.{has, has-ne, has-append, Distinct, AllBelow}
use iclaustron.ThreadPool.{no_id}
use iclaustron.ThreadPool.Lists.{Linked, Linked-frame}

abbrev pub update : (ℕ → ℕ) → (at value : ℕ) → ℕ → ℕ
update f at value a = if a == at then value else f a

pub update-same : (f : ℕ → ℕ) (at value a : ℕ) → a ≡ at → update f at value a ≡ value
update-same f at value a e = let here : (a == at) ≡ true = ground arith in rw here refl

pub update-other : (f : ℕ → ℕ) (at value a : ℕ) → (a == at) ≡ false → update f at value a ≡ f a
update-other f at value a other = rw other refl

module _ (next prev : ℕ → ℕ) (x : ℕ) (zs : List ℕ) where
  -- Behind the thread there is the rest of the list, or nothing.
  pub next-behind :
      (ys : List ℕ) (before first : ℕ)
      → Linked next prev before first (ys ++ x ∷ zs)
      → (next x ≡ no_id) ⊎ (has (next x) zs ≡ true)
  next-behind (y ∷ ys) before first linked = next-behind ys y (next y) linked.2
  next-behind [] before first linked = behind zs linked.2
    where
      behind :
          (zs : List ℕ)
          → Linked next prev x (next x) zs
          → (next x ≡ no_id) ⊎ (has (next x) zs ≡ true)
      behind [] end = inl end
      behind (z ∷ zs) on = inr (let e : (next x == z) ≡ true = ground (arith, on.0) in rw e refl)

  -- Before it there is one of the threads before.
  pub prev-before :
      (y : ℕ) (ys : List ℕ) (before first : ℕ)
      → Linked next prev before first (y ∷ ys ++ x ∷ zs)
      → has (prev x) (y ∷ ys) ≡ true
  prev-before y [] before first linked =
      let e : (prev x == y) ≡ true = ground (arith, linked.2.1) in rw e refl
  prev-before y (y' ∷ ys) before first linked =
      ground (arith, prev-before y' ys y (next y) linked.2)

  before-ne-next :
      (a : ℕ) (ys : List ℕ) (before first : ℕ)
      → Linked next prev before first (ys ++ x ∷ zs)
      → a < no_id
      → has a zs ≡ false
      → (a == next x) ≡ false
  before-ne-next a ys before first linked real out = elim (next-behind ys before first linked) [
    | inl end ↦ ground (arith, end)
    | inr in_rest ↦ elim (Bool-cases (a == next x)) [
      | inl same ↦
          let e : a ≡ next x = ground arith in
          absurd (let no : true ≡ false = sym in_rest ∙ (ap (λ n. has n zs) (sym e) ∙ out) in cc)
      | inr other ↦ other
    ]
  ]

  abbrev pub next_without : ℕ → ℕ
  next_without = update next (prev x) (next x)

  abbrev pub prev_without : ℕ → ℕ
  prev_without = update prev (next x) (prev x)

  unlink_first :
      (before : ℕ)
      → Linked next prev before x (x ∷ zs)
      → Distinct (x ∷ zs)
      → has before (x ∷ zs) ≡ false
      → Linked next_without prev_without before (next x) zs
  unlink_first before linked once out = without zs linked.2 once.1 (ground (arith, out))
    where
      without :
          (zs : List ℕ)
          → Linked next prev x (next x) zs
          → Distinct zs
          → has before zs ≡ false
          → Linked next_without prev_without before (next x) zs
      without [] on once out = on
      without (z ∷ zs) on once out = (
        on.0,
        update-same prev (next x) (prev x) z (sym on.0) ∙ linked.1,
        subst (λ (n : ℕ). Linked next_without prev_without z n zs)
            (sym (update-other next (prev x) (next x) z (ground (arith, linked.1, out))))
            (Linked-frame next next_without prev prev_without z (next z) zs
              (λ a i. update-other next (prev x) (next x) a (
                subst (λ (n : ℕ). (a == n) ≡ false) (sym linked.1)
                  (has-ne a before zs i (ground (arith, out)))))
              (λ a i.
                update-other prev (next x) (prev x) a
                  (subst (λ (n : ℕ). (a == n) ≡ false) (sym on.0) (has-ne a z zs i once.0)))
              on.2),
      )

  -- The first thread of the rest.
  abbrev pub first_without : List ℕ → ℕ → ℕ
  first_without [] first = next x
  first_without (y ∷ ys) first = first

  -- The threads before and behind it are linked to each other.
  pub unlink-Linked :
      (ys : List ℕ) (before first : ℕ)
      → Linked next prev before first (ys ++ x ∷ zs)
      → Distinct (ys ++ x ∷ zs)
      → AllBelow no_id (ys ++ x ∷ zs)
      → has before (ys ++ x ∷ zs) ≡ false
      → Linked next_without prev_without before (first_without ys first) (ys ++ zs)
  unlink-Linked [] before first linked once real out =
      unlink_first before (refl, linked.1, linked.2) once out
  unlink-Linked (y ∷ ys) before first linked once real out =
      let rest = unlink-Linked ys y (next y) linked.2 once.1 real.1 once.0 in
      let out_zs : has y zs ≡ false = ground (arith, has-append y ys (x ∷ zs), once.0) in
      (
        linked.0,
        update-other prev (next x) (prev x) y
              (before-ne-next y (y ∷ ys) before first linked real.0 out_zs)
            ∙ linked.1,
        subst (λ (n : ℕ). Linked next_without prev_without y n (ys ++ zs))
            (sym (onward ys linked once.0)) rest,
      )
    where
      onward :
          (ys : List ℕ)
          → Linked next prev before first (y ∷ ys ++ x ∷ zs)
          → has y (ys ++ x ∷ zs) ≡ false
          → next_without y ≡ first_without ys (next y)
      onward [] linked out = update-same next (prev x) (next x) y (sym linked.2.1)
      onward (y' ∷ ys) linked out =
          let i = prev-before y' ys y (next y) linked.2 in
          let o : has y (y' ∷ ys) ≡ false = ground (arith, has-append y (y' ∷ ys) (x ∷ zs), out) in
          let other : (y == prev x) ≡ false = ground (arith, has-ne (prev x) y (y' ∷ ys) i o) in
          update-other next (prev x) (next x) y other
