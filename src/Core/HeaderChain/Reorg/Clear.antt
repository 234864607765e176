-- ===== src/Core/HeaderChain/Reorg/Clear.antt =====
-- core/headerchain.go: what the loop of `Reorg` that clears the numbers above its head writes to the canonical index.
use mive.Base.{
  ℕ, zero, suc, ◌+◌, ◌≤◌, ◌<◌, ◌≡◌, ◌≢◌, none, some, List, arith, ◌==◌, Bool-cases, Option-cases,
  inl, inr, add64, max_uint64,
}
use mive.Core.Types.{Hash, zero_hash}
use mive.Core.Rawdb.{Storage, Write}
use mive.Core.Rawdb.Effects.{canonical_after}
use mive.Core.HeaderChain.Reorg.{clear_above}

-- An index that is filled from `i` up to `top`, and empty above `top`.
pub record EndsAt (c : ℕ → Hash) (i top : ℕ) : Type 0 where
  pub filled : (m : ℕ) → i ≤ m → m ≤ top → c m ≢ zero_hash
  pub above : (m : ℕ) → top < m → c m ≡ zero_hash
  pub bounded : top < max_uint64

EndsAt-le : {c : ℕ → Hash} {i top : ℕ} → EndsAt c i top → c i ≢ zero_hash → i ≤ top
EndsAt-le {i = i} ends full = ground (arith, ends.above i)

EndsAt-add64 :
    {c : ℕ → Hash} {i top : ℕ}
    → EndsAt c i top
    → c i ≢ zero_hash
    → (add64 i 1 ≡ suc i) × EndsAt c (suc i) top
EndsAt-add64 {i = i} {top = top} ends full =
    let le : i ≤ top = EndsAt-le ends full in
    (
      omega (arith, ends.bounded),
      record {
        filled = λ m h k. ends.filled m (omega arith) k;
        above = ends.above;
        bounded = ends.bounded;
      },
    )

module _ (S : Storage) (db : S.Db) (top : ℕ) where
  -- The deletions leave everything below their start.
  pub clear_above-below :
      (fuel i : ℕ) {ws : List Write} (n : ℕ) (old : Hash)
      → clear_above S fuel db i ≡ some ws
      → EndsAt (S.read_canonical_hash db) i top
      → n < i
      → canonical_after ws n old ≡ old
  unfolding clear_above canonical_after
  clear_above-below zero i n old e ends lt = cc
  clear_above-below (suc fuel) i {ws} n old e ends lt =
      elim (Bool-cases (S.read_canonical_hash db i == zero_hash)) [
        | inl done ↦ ground arith
        | inr full ↦
            let (next, ends') = EndsAt-add64 ends (ground arith) in
            elim (Option-cases (clear_above S fuel db (suc i))) [
              | inl out ↦ ground arith
              | inr (ws', more) ↦
                  ground (arith, clear_above-below fuel (suc i) n old more ends' (omega arith))
            ]
      ]

  -- From their start on the deletions empty the index.
  pub clear_above-from :
      (fuel i : ℕ) {ws : List Write} (n : ℕ)
      → clear_above S fuel db i ≡ some ws
      → EndsAt (S.read_canonical_hash db) i top
      → i ≤ n
      → canonical_after ws n (S.read_canonical_hash db n) ≡ zero_hash
  unfolding clear_above canonical_after
  clear_above-from zero i n e ends le = cc
  clear_above-from (suc fuel) i {ws} n e ends le =
      elim (Bool-cases (S.read_canonical_hash db i == zero_hash)) [
        | inl done ↦ ground (arith, ends.above n, ends.filled i)
        | inr full ↦
            let (next, ends') = EndsAt-add64 ends (ground arith) in
            elim (Option-cases (clear_above S fuel db (suc i))) [
              | inl out ↦ ground arith
              | inr (ws', more) ↦ ground (
                arith,
                clear_above-below fuel (suc i) {ws = ws'} n zero_hash more ends',
                clear_above-from fuel (suc i) {ws = ws'} n more ends',
              )
            ]
      ]

  -- One round more than there are numbers to clear is enough.
  pub clear_above-ne-none :
      (fuel i : ℕ)
      → EndsAt (S.read_canonical_hash db) i top
      → top < i + fuel
      → clear_above S (suc fuel) db i ≢ none
  unfolding clear_above
  clear_above-ne-none zero i ends lt e = ground (arith, ends.above i)
  clear_above-ne-none (suc fuel) i ends lt e =
      elim (Bool-cases (S.read_canonical_hash db i == zero_hash)) [
        | inl done ↦ ground arith
        | inr full ↦
            let (next, ends') = EndsAt-add64 ends (ground arith) in
            ground (arith, clear_above-ne-none fuel (suc i) ends' (omega arith))
      ]
