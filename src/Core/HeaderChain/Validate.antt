-- ===== src/Core/HeaderChain/Validate.antt =====
-- core/headerchain.go: `ValidateHeaderChain`, over the engine's answers.
pub mod Valid
use mive.Base.{
  ℕ, zero, suc, ◌-◌, Bool, true, false, not, ◌&&◌, Option, none, some, List, [], ◌∷◌, ◌==◌,
  if◌then◌else◌, add64,
}
use mive.Core.Types.{Hash, Header, number_u64}
use mive.Core.HeaderChain.{Error, aborted, banned_hash, non_contiguous, invalid_header}

-- What the function asks: go-ethereum's list of bad hashes, the engine's `i`th answer, whose error is
-- true, and what `procInterrupt` answers before it.
pub record Checks : Type 0 where
  pub bad_hash : Hash → Bool
  pub rejects : ℕ → Bool
  pub interrupted : ℕ → Bool

abbrev pub is_last : List Header → Bool
is_last [] = true
is_last (header ∷ headers) = false

-- The loop that compares the header at `i` with the one before it.
abbrev pub check_order : Checks → ℕ → Header → List Header → ℕ × Option Error
check_order checks i prev [] = (0, none)
check_order checks i prev (header ∷ headers) =
    let rest = check_order checks (suc i) header headers in
    if not (number_u64 header == add64 (number_u64 prev) 1)
    then (0, some (non_contiguous i))
    else if checks.bad_hash header.parent_hash
    then (i - 1, some banned_hash)
    else if is_last headers && checks.bad_hash header.hash
    then (i, some banned_hash)
    else rest

-- The loop over the engine's answers, from the header at `i` on.
abbrev pub check_answers : Checks → ℕ → List Header → ℕ × Option Error
check_answers checks i [] = (0, none)
check_answers checks i (header ∷ headers) =
    let rest = check_answers checks (suc i) headers in
    if checks.interrupted i
    then (0, some aborted)
    else if checks.rejects i
    then (i, some (invalid_header i))
    else rest

-- `ValidateHeaderChain`: an index and an error
unfoldable pub validate_header_chain : Checks → List Header → ℕ × Option Error
validate_header_chain checks [] = (0, none)
validate_header_chain checks (first ∷ rest) =
    let (i, ordered) = check_order checks 1 first rest in
    elim ordered [ some e ↦ (i, some e) | none ↦ check_answers checks 0 (first ∷ rest) ]
