-- ===== src/Protocol/Receive/Stream.antt =====
-- Lines that have to be a given text: what is found is taken off the stream, and what is not is put back.
use mathlib.Core.Path.{subst}
use iclaustron.Base.{
  ℕ, suc, ◌+◌, ◌<◌, ◌≡◌, ◌≢◌, refl, ap, ◌∙◌, Bool, true, false, List, [], ◌∷◌, ◌++◌, ◌==◌,
  if◌then◌else◌, length, arith, Bool-cases, inl, inr,
}
use iclaustron.Protocol.{
  Link, M, Reply, got, error, rec_with_cr, step_back_rec_with_cr, carriage_return, protocol_error,
  resume, ◌>>=◌, return, fails,
}
use iclaustron.Protocol.Frame.{NoReturn, stream, Supplies, Reports}
use iclaustron.Protocol.Frame.Line.{rec_with_cr-line, step_back-line}
use iclaustron.Protocol.Receive.{
  starts, check_buf, line_buf, after_simple_str, rec_simple_str_impl, rec_simple_str,
  rec_simple_str_opt,
}

-- A run that has ended with a reply, and what is then to be read.
pub record Leaves {A : Type 0} (room total : ℕ) (reply : Reply A) (rest : List ℕ)
    (run : Link × Reply A) : Type 0 where
  pub result : run.1 ≡ reply
  pub remains : stream run.0 ≡ rest
  pub supplies : Supplies room total run.0

pub starts-append : (str behind : List ℕ) → starts (str ++ behind) str ≡ true
unfolding starts
starts-append [] behind = refl
starts-append (c ∷ str) behind = ground (arith, starts-append str behind)

starts-eq :
    (text behind str : List ℕ)
    → length text ≡ length str
    → starts (text ++ behind) str ≡ true
    → text ≡ str
unfolding starts
starts-eq [] behind [] same e = refl
starts-eq [] behind (d ∷ str) same e = absurd (omega arith)
starts-eq (c ∷ text) behind [] same e = absurd (omega arith)
starts-eq (c ∷ text) behind (d ∷ str) same e =
    ground (arith, starts-eq text behind str (omega arith))

pub check_buf-same : (str behind : List ℕ) → check_buf (str ++ behind) (length str) str ≡ false
unfolding check_buf
check_buf-same str behind = ground (arith, starts-append str behind)

pub check_buf-other :
    (text behind str : List ℕ) → text ≢ str → check_buf (text ++ behind) (length text) str ≡ true
unfolding check_buf
check_buf-other text behind str other = elim (Bool-cases (length text == length str)) [
  | inr longer ↦ rw longer
  | inl same ↦ elim (Bool-cases (starts (text ++ behind) str)) [
    | inl e ↦ absurd (other (starts-eq text behind str (ground arith) e))
    | inr e ↦ rw (same, e)
  ]
]

pub resume-got :
    {A B : Type 0} (run : Link × Reply A) (f : A → M B) (a : A)
    → run.1 ≡ got a
    → resume run f ≡ f a run.0
resume-got (s, reply) f a e = ap (λ reply'. resume (s, reply') f) e

-- What a routine does with a line that was reported.
pub after_line :
    {B : Type 0} (room total : ℕ) (text rest : List ℕ) (s : Link)
    (reports : Reports room total text rest (rec_with_cr s)) (f : ℕ → List ℕ → M B)
    → resume (rec_with_cr s) (λ read_size. line_buf >>= f read_size)
      ≡ f (length text) (text ++ carriage_return ∷ reports.behind) (rec_with_cr s).0
unfolding line_buf
after_line room total text rest s reports f =
    resume-got (rec_with_cr s) (λ read_size. line_buf >>= f read_size) (length text) reports.result
    ∙ ap (λ buf. f (length text) buf (rec_with_cr s).0) reports.front

-- The text was found.
simple_str-same :
    (room total : ℕ) (str rest : List ℕ) (optional : Bool) (s : Link)
    → Reports room total str rest (rec_with_cr s)
    → Leaves room total (got true) rest (rec_simple_str_impl str optional s)
unfolding rec_simple_str_impl after_simple_str
simple_str-same room total str rest optional s reports =
    rw (after_line room total str rest s reports (after_simple_str str optional)) (
      rw (check_buf-same str (carriage_return ∷ reports.behind))
        (record { result = refl; remains = reports.remains; supplies = reports.supplies }))

-- Another line: it is put back.
simple_str-other :
    (room total : ℕ) (text rest str : List ℕ) (optional : Bool) (s : Link)
    → text ≢ str
    → Reports room total text rest (rec_with_cr s)
    → Leaves room
        (suc (length text + total))
        (if optional then got false else error protocol_error)
        (text ++ carriage_return ∷ rest)
        (rec_simple_str_impl str optional s)
unfolding rec_simple_str_impl after_simple_str step_back_rec_with_cr
simple_str-other room total text rest str optional s other reports =
    let (again, supplies) = step_back-line room total text rest (rec_with_cr s) reports in
    rw (after_line room total text rest s reports (after_simple_str str optional)) (
      rw (check_buf-other text (carriage_return ∷ reports.behind) str other)
        (put_back optional again supplies))
  where
    put_back :
        (optional : Bool)
        → stream (step_back_rec_with_cr (length text) (rec_with_cr s).0).0
          ≡ text ++ carriage_return ∷ rest
        → Supplies room
            (suc (length text + total))
            (step_back_rec_with_cr (length text) (rec_with_cr s).0).0
        → Leaves room
            (suc (length text + total))
            (if optional then got false else error protocol_error)
            (text ++ carriage_return ∷ rest)
            ((if optional then return false else fails protocol_error)
              (step_back_rec_with_cr (length text) (rec_with_cr s).0).0)
    put_back true again supplies = record { result = refl; remains = again; supplies = supplies }
    put_back false again supplies = record { result = refl; remains = again; supplies = supplies }

-- On a valid connection whose buffer is larger than the first line, with rounds enough for its bytes:
-- `ic_rec_simple_str_opt` takes the line and finds the text where it is the line; where it is not, it returns
-- 0 without having found it, and the line is still to be read.
pub rec_simple_str_opt-line :
    (room total : ℕ) (text rest str : List ℕ) (s : Link)
    → NoReturn text
    → length text < room
    → Supplies room (suc (length text + total)) s
    → stream s ≡ text ++ carriage_return ∷ rest
    → (text ≡ str → Leaves room total (got true) rest (rec_simple_str_opt str s))
      × (text ≢ str
          → Leaves room
              (suc (length text + total))
              (got false)
              (text ++ carriage_return ∷ rest)
              (rec_simple_str_opt str s))
unfolding rec_simple_str_opt
rec_simple_str_opt-line room total text rest str s no_return short supplies flow =
    let reports = rec_with_cr-line room total text rest s no_return short supplies flow in
    (
      λ same.
          subst (λ str'. Leaves room total (got true) rest (rec_simple_str_impl str' true s)) same
            (simple_str-same room total text rest true s reports),
      λ other. simple_str-other room total text rest str true s other reports,
    )

pub rec_simple_str-same :
    (room total : ℕ) (str rest : List ℕ) (s : Link)
    → NoReturn str
    → length str < room
    → Supplies room (suc (length str + total)) s
    → stream s ≡ str ++ carriage_return ∷ rest
    → Leaves room total (got tt) rest (rec_simple_str str s)
unfolding rec_simple_str
rec_simple_str-same room total str rest s no_return short supplies flow =
    let found =
      simple_str-same room total str rest false s
        (rec_with_cr-line room total str rest s no_return short supplies flow) in
    rw (resume-got (rec_simple_str_impl str false s) (λ found'. return tt) true found.result)
      (record { result = refl; remains = found.remains; supplies = found.supplies })

pub resume-error :
    {A B : Type 0} (run : Link × Reply A) (f : A → M B) (code : ℕ)
    → run.1 ≡ error code
    → resume run f ≡ (run.0, error code)
resume-error (s, reply) f code e = ap (λ reply'. resume (s, reply') f) e

pub rec_simple_str-other :
    (room total : ℕ) (text rest str : List ℕ) (s : Link)
    → text ≢ str
    → NoReturn text
    → length text < room
    → Supplies room (suc (length text + total)) s
    → stream s ≡ text ++ carriage_return ∷ rest
    → Leaves room
        (suc (length text + total))
        (error protocol_error)
        (text ++ carriage_return ∷ rest)
        (rec_simple_str str s)
unfolding rec_simple_str
rec_simple_str-other room total text rest str s other no_return short supplies flow =
    let refused =
      simple_str-other room total text rest str false s other
        (rec_with_cr-line room total text rest s no_return short supplies flow) in
    rw
      (resume-error (rec_simple_str_impl str false s) (λ found'. return tt) protocol_error
        refused.result)
      (record { result = refl; remains = refused.remains; supplies = refused.supplies })
