-- ===== src/Core/HeaderChain/Validate/Valid.antt =====
-- core/headerchain.go: exactly which chains `ValidateHeaderChain` accepts.
use mive.Base.{
  ℕ, zero, suc, ◌+◌, ◌<◌, ◌≡◌, ◌≢◌, ◌↔◌, refl, ap, ◌∙◌, Bool, true, false, not, ◌-◌, Option, ==_iff,
  if◌then◌else◌, none, some, List, [], ◌∷◌, length, last_of, arith, add64, ◌==◌,
}
use mive.Core.Types.{Header, number_u64}
use mive.Core.HeaderChain.{Error, non_contiguous, banned_hash, aborted, invalid_header}
use mive.Core.HeaderChain.Validate.{Checks, check_order, check_answers, validate_header_chain}

-- Each header has the number after that of the one before it, and no bad parent.
abbrev pub IsOrdered : Checks → Header → List Header → Type 0
IsOrdered checks prev [] = Unit
IsOrdered checks prev (header ∷ headers) =
    (number_u64 header ≡ add64 (number_u64 prev) 1)
    × (checks.bad_hash header.parent_hash ≡ false)
    × IsOrdered checks header headers

-- A chain to accept: it is ordered, its last header is not bad unless it is the only one, and the
-- engine accepts all headers without an interrupt.
pub record IsValid (checks : Checks) (first : Header) (rest : List Header) : Type 0 where
  pub ordered : IsOrdered checks first rest
  pub last_good : rest ≢ [] → checks.bad_hash (last_of first rest).hash ≡ false
  pub accepted :
      (i : ℕ)
      → i < length (first ∷ rest)
      → (checks.interrupted i ≡ false) × (checks.rejects i ≡ false)

-- Two guards in front of the rest, which return an error each.
guarded-none :
    (x y : ℕ × Error) (a b : Bool) (rest : ℕ × Option Error)
    → ((if not a then (x.0, some x.1) else if b then (y.0, some y.1) else rest).1 ≡ none)
      ↔ ((a ≡ true) × (b ≡ false) × (rest.1 ≡ none))
guarded-none x y true true rest = ((λ e. ground arith), λ t. ground (arith, t.1))
guarded-none x y true false rest = ((λ e. (refl, refl, e)), λ t. t.2)
guarded-none x y false b rest = ((λ e. ground arith), λ t. ground (arith, t.0))

check_order-none :
    (checks : Checks) (i : ℕ) (prev : Header) (rest : List Header)
    → ((check_order checks i prev rest).1 ≡ none) ↔ (
        IsOrdered checks prev rest × (rest ≢ [] → checks.bad_hash (last_of prev rest).hash ≡ false))
check_order-none checks i prev [] = ((λ e. (tt, λ f. absurd (f refl))), λ e. refl)
check_order-none checks i prev (header ∷ []) =
    ground (arith, check_order-none checks (suc i) header [])
check_order-none checks i prev (header ∷ next ∷ rest) =
    let ih = check_order-none checks (suc i) header (next ∷ rest) in
    let step =
      guarded-none (0, non_contiguous i) (i - 1, banned_hash)
        (number_u64 header == add64 (number_u64 prev) 1) (checks.bad_hash header.parent_hash)
        (check_order checks (suc i) header (next ∷ rest)) in
    let same = ==_iff (number_u64 header) (add64 (number_u64 prev) 1) in
    (
      (λ e.
          let (a, b, r) = step.0 e in
          let (ordered, good) = ih.0 r in ((same.0 a, b, ordered), λ f. good (λ q. ground arith))),
      (λ t.
          let (ordered, good) = t in
          let (a, b, r) = ordered in step.1 (same.1 a, b, ih.1 (r, λ f. good (λ q. ground arith)))),
    )

-- Two guards with an error each, of which both must fail.
refused-none :
    (x y : ℕ × Error) (a b : Bool) (rest : ℕ × Option Error)
    → ((if a then (x.0, some x.1) else if b then (y.0, some y.1) else rest).1 ≡ none)
      ↔ ((a ≡ false) × (b ≡ false) × (rest.1 ≡ none))
refused-none x y false true rest = ((λ e. ground arith), λ t. ground (arith, t.1))
refused-none x y false false rest = ((λ e. (refl, refl, e)), λ t. t.2)
refused-none x y true b rest = ((λ e. ground arith), λ t. ground (arith, t.0))

-- The engine accepts so many headers from `i` on, without an interrupt.
abbrev Accepted : Checks → ℕ → ℕ → Type 0
Accepted checks i count =
    (j : ℕ) → j < count → (checks.interrupted (i + j) ≡ false) × (checks.rejects (i + j) ≡ false)

Accepted-suc :
    (checks : Checks) (i count : ℕ)
    → Accepted checks i (suc count) ↔ (
        (checks.interrupted i ≡ false) × (checks.rejects i ≡ false) × Accepted checks (suc i) count)
Accepted-suc checks i count = (to, from)
  where
    to :
        Accepted checks i (suc count)
        → (checks.interrupted i ≡ false)
          × (checks.rejects i ≡ false)
          × Accepted checks (suc i) count
    to all =
        let z : i + 0 ≡ i = omega arith in
        let (a, b) = all 0 (omega arith) in
        (
          rw z at a,
          rw z at b,
          λ j lt.
              let s : i + suc j ≡ suc i + j = omega arith in rw s at (all (suc j) (omega arith)),
        )

    from :
        (checks.interrupted i ≡ false) × (checks.rejects i ≡ false) × Accepted checks (suc i) count
        → Accepted checks i (suc count)
    from (a, b, later) zero lt = let z : i + 0 ≡ i = omega arith in (rw z a, rw z b)
    from (a, b, later) (suc j) lt =
        let s : i + suc j ≡ suc i + j = omega arith in rw s (later j (omega arith))

check_answers-none :
    (checks : Checks) (i : ℕ) (headers : List Header)
    → ((check_answers checks i headers).1 ≡ none) ↔ Accepted checks i (length headers)
check_answers-none checks i [] = ((λ e j lt. absurd (omega arith)), λ e. refl)
check_answers-none checks i (header ∷ headers) =
    let ih = check_answers-none checks (suc i) headers in
    let step =
      refused-none (0, aborted) (i, invalid_header i) (checks.interrupted i) (checks.rejects i)
        (check_answers checks (suc i) headers) in
    let later = Accepted-suc checks i (length headers) in
    (
      (λ e. let (a, b, r) = step.0 e in later.1 (a, b, ih.0 r)),
      (λ all. let (a, b, r) = later.0 all in step.1 (a, b, ih.1 r)),
    )

-- `ValidateHeaderChain` of a chain that is not empty returns no error exactly if the chain is valid.
pub validate_header_chain-IsValid :
    (checks : Checks) (first : Header) (rest : List Header)
    → ((validate_header_chain checks (first ∷ rest)).1 ≡ none) ↔ IsValid checks first rest
unfolding validate_header_chain
validate_header_chain-IsValid checks first rest = (to, from)
  where
    order : ((check_order checks 1 first rest).1 ≡ none) ↔ (
        IsOrdered checks first rest
        × (rest ≢ [] → checks.bad_hash (last_of first rest).hash ≡ false))
    order = check_order-none checks 1 first rest

    answers :
        ((check_answers checks 0 (first ∷ rest)).1 ≡ none)
        ↔ Accepted checks 0 (length (first ∷ rest))
    answers = check_answers-none checks 0 (first ∷ rest)

    outcome : Option Error → ℕ × Option Error
    outcome o = elim o [
      | some e ↦ ((check_order checks 1 first rest).0, some e)
      | none ↦ check_answers checks 0 (first ∷ rest)
    ]

    by_order :
        (o : Option Error)
        → (check_order checks 1 first rest).1 ≡ o
        → (outcome o).1 ≡ none
        → IsValid checks first rest
    by_order none o e =
        let (ordered, good) = order.0 o in
        record {
          ordered = ordered;
          last_good = good;
          accepted = λ i lt. let z : 0 + i ≡ i = omega arith in rw z at (answers.0 e i lt);
        }
    by_order (some err) o e = ground arith

    to : (validate_header_chain checks (first ∷ rest)).1 ≡ none → IsValid checks first rest
    to e = by_order (check_order checks 1 first rest).1 refl e

    from : IsValid checks first rest → (validate_header_chain checks (first ∷ rest)).1 ≡ none
    from valid =
        let o = order.1 (valid.ordered, valid.last_good) in
        let all =
          answers.1 (λ j lt. let z : 0 + j ≡ j = omega arith in rw z (valid.accepted j lt)) in
        ap (λ q. (outcome q).1) o ∙ all
