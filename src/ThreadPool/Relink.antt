-- ===== src/ThreadPool/Relink.antt =====
-- The writes of single links in the list of stopped threads.
use iclaustron.Base.{
  ℕ, ◌<◌, ◌≤◌, ◌≡◌, ◌⊎◌, refl, true, false, List, [], ◌∷◌, ◌==◌, if◌then◌else◌, arith, ◌∙◌,
  Bool-cases, inl, inr, ok,
}
use iclaustron.Base.Members.{has, AllBelow, has-below}
use iclaustron.ThreadPool.{
  Thread, Pool, no_id, put, set_thread, change_thread, set_prev, set_next, unlink_stopped,
}
use iclaustron.ThreadPool.Lists.{put-keeps, ref-thread}
use iclaustron.ThreadPool.Links.{update}

-- The thread objects after `set_prev` and `set_next`.
unfoldable pub link_prev : (ℕ → Thread) → (id prev : ℕ) → ℕ → Thread
link_prev threads id prev =
    if id == no_id then threads else put threads id (record (threads id) { prev_thread_id = prev })

unfoldable pub link_next : (ℕ → Thread) → (id next : ℕ) → ℕ → Thread
link_next threads id next =
    if id == no_id then threads else put threads id (record (threads id) { next_thread_id = next })

-- The end of a list, or a thread object.
abbrev pub OrEnd : Pool → ℕ → Type 0
OrEnd p id = (id ≡ no_id) ⊎ (id < p.made)

pub set_prev-threads :
    (p : Pool) (id prev : ℕ)
    → OrEnd p id
    → set_prev p id prev ≡ ok (record p { threads = link_prev p.threads id prev })
unfolding set_prev link_prev change_thread set_thread
set_prev-threads p id prev or_end = elim (Bool-cases (id == no_id)) [
  | inl end ↦ rw end refl
  | inr real ↦
      let inside : id < p.made = elim or_end [ inl end ↦ ground arith | inr inside ↦ inside ] in
      rw real (rw (ref-thread p id inside) refl)
]

pub set_next-threads :
    (p : Pool) (id next : ℕ)
    → OrEnd p id
    → set_next p id next ≡ ok (record p { threads = link_next p.threads id next })
unfolding set_next link_next change_thread set_thread
set_next-threads p id next or_end = elim (Bool-cases (id == no_id)) [
  | inl end ↦ rw end refl
  | inr real ↦
      let inside : id < p.made = elim or_end [ inl end ↦ ground arith | inr inside ↦ inside ] in
      rw real (rw (ref-thread p id inside) refl)
]

module _ (threads : ℕ → Thread) (id value : ℕ) where
  -- All but the backward link stays, and the links are as `update` has them.
  pub link_prev-keeps {ℓ} :
      {A : Type ℓ} (f : Thread → A)
      → ((t : Thread) → f (record t { prev_thread_id = value }) ≡ f t)
      → (a : ℕ) → f (link_prev threads id value a) ≡ f (threads a)
  unfolding link_prev
  link_prev-keeps f same a = elim (Bool-cases (id == no_id)) [
    | inl end ↦ rw end refl
    | inr real ↦ rw real (put-keeps threads id _ f a (λ e. same (threads id)))
  ]

  pub link_prev-prev :
      (a : ℕ)
      → a < no_id
      → (link_prev threads id value a).prev_thread_id
        ≡ update (λ i. (threads i).prev_thread_id) id value a
  unfolding link_prev
  link_prev-prev a real = elim (Bool-cases (id == no_id)) [
    | inl end ↦ let e : (a == id) ≡ false = ground arith in rw end (rw e refl)
    | inr other ↦ rw other (elim (Bool-cases (a == id)) [ inl e ↦ rw e refl | inr e ↦ rw e refl ])
  ]

  pub link_next-keeps {ℓ} :
      {A : Type ℓ} (f : Thread → A)
      → ((t : Thread) → f (record t { next_thread_id = value }) ≡ f t)
      → (a : ℕ) → f (link_next threads id value a) ≡ f (threads a)
  unfolding link_next
  link_next-keeps f same a = elim (Bool-cases (id == no_id)) [
    | inl end ↦ rw end refl
    | inr real ↦ rw real (put-keeps threads id _ f a (λ e. same (threads id)))
  ]

  pub link_next-next :
      (a : ℕ)
      → a < no_id
      → (link_next threads id value a).next_thread_id
        ≡ update (λ i. (threads i).next_thread_id) id value a
  unfolding link_next
  link_next-next a real = elim (Bool-cases (id == no_id)) [
    | inl end ↦ let e : (a == id) ≡ false = ground arith in rw end (rw e refl)
    | inr other ↦ rw other (elim (Bool-cases (a == id)) [ inl e ↦ rw e refl | inr e ↦ rw e refl ])
  ]

  pub link_next-end : (id == no_id) ≡ true → link_next threads id value ≡ threads
  unfolding link_next
  link_next-end end = rw end refl

pub AllBelow-real : (n : ℕ) (xs : List ℕ) → n ≤ no_id → AllBelow n xs → AllBelow no_id xs
AllBelow-real n [] le all = tt
AllBelow-real n (x ∷ xs) le all =
    (let lt : x < no_id = omega (arith, all.0) in lt, AllBelow-real n xs le all.1)

pub end-out : (xs : List ℕ) → AllBelow no_id xs → has no_id xs ≡ false
end-out xs all = elim (Bool-cases (has no_id xs)) [
  | inl i ↦ absurd (omega (arith, has-below no_id no_id xs all i))
  | inr o ↦ o
]

-- The pool after `unlink_stopped`.
unfoldable pub unlinked : Pool → (prev next : ℕ) → Pool
unlinked p prev next = record p {
  threads = link_prev (link_next p.threads prev next) next prev;
  first_stopped_thread_id = if prev == no_id then next else p.first_stopped_thread_id;
}

pub unlinked-keeps {ℓ} :
    (p : Pool) (prev next : ℕ) {A : Type ℓ} (f : Thread → A)
    → ((t : Thread) (v : ℕ) → f (record t { prev_thread_id = v }) ≡ f t)
    → ((t : Thread) (v : ℕ) → f (record t { next_thread_id = v }) ≡ f t)
    → (a : ℕ) → f ((unlinked p prev next).threads a) ≡ f (p.threads a)
unfolding unlinked
unlinked-keeps p prev next f same_prev same_next a =
    link_prev-keeps (link_next p.threads prev next) next prev f (λ t. same_prev t prev) a
    ∙ link_next-keeps p.threads prev next f (λ t. same_next t next) a

pub unlink_stopped-unlinked :
    (p : Pool) (prev next : ℕ)
    → OrEnd p prev
    → OrEnd p next
    → unlink_stopped p prev next ≡ ok (unlinked p prev next)
unfolding unlink_stopped unlinked
unlink_stopped-unlinked p prev next before behind = elim (Bool-cases (prev == no_id)) [
  | inl first ↦
      let same : link_next p.threads prev next ≡ p.threads =
        link_next-end p.threads prev next first in
      rw first
        (rw same (set_prev-threads (record p { first_stopped_thread_id = next }) next prev behind))
  | inr later ↦ rw later (
      rw (set_next-threads p prev next before)
        (set_prev-threads (record p { threads = link_next p.threads prev next }) next prev behind))
]
