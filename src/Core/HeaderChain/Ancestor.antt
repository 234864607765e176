-- ===== src/Core/HeaderChain/Ancestor.antt =====
-- core/headerchain.go: `GetAncestor`.
pub mod Path
use mive.Base.{ℕ, zero, suc, ◌-◌, none, some, true, false, ◌==◌, ltb, sub64, if◌then◌else◌}
use mive.Core.Types.{Hash, zero_hash, Header}
use mive.Core.Lru.{Lru}
use mive.Core.Rawdb.{Storage}
use mive.Core.HeaderChain.{HeaderChain, get_header}

-- The hash and number returned, and what is left of `*maxNonCanonical`.
pub record Ancestor : Type 0 where
  pub hash : Hash
  pub number : ℕ
  pub max_non_canonical : ℕ

module _ {S : Storage} {H : Lru Hash Header} {N : Lru Hash ℕ} where
  -- The loop, over the count that it takes down.
  unfoldable pub ancestor_loop : ℕ → HeaderChain S H N → Hash → ℕ → ℕ → Ancestor × HeaderChain S H N
  ancestor_loop zero hc hash number max =
      (record { hash = hash; number = number; max_non_canonical = max }, hc)
  ancestor_loop (suc ancestor) hc hash number max =
      let canonical = S.read_canonical_hash hc.chain_db number in
      let below = sub64 number (suc ancestor) in
      let (found, hc') = get_header hc hash number in
      elim (canonical == hash) [
        | true ↦ (
          record {
            hash = S.read_canonical_hash hc.chain_db below;
            number = below;
            max_non_canonical = max;
          },
          hc,
        )
        | false ↦ elim (max == 0) [
          | true ↦ (record { hash = zero_hash; number = 0; max_non_canonical = max }, hc)
          | false ↦ elim found [
            | none ↦ (record { hash = zero_hash; number = 0; max_non_canonical = max - 1 }, hc')
            | some header ↦ ancestor_loop ancestor hc' header.parent_hash (sub64 number 1) (max - 1)
          ]
        ]
      ]

  -- `GetAncestor`
  unfoldable pub get_ancestor : HeaderChain S H N → Hash → ℕ → ℕ → ℕ → Ancestor × HeaderChain S H N
  get_ancestor hc hash number ancestor max =
      let nothing : Ancestor = record { hash = zero_hash; number = 0; max_non_canonical = max } in
      let (found, hc') = get_header hc hash number in
      if ltb number ancestor
      then (nothing, hc)
      else if ancestor == 1
      then elim found [
        | none ↦ (nothing, hc')
        | some header ↦ (
          record { hash = header.parent_hash; number = sub64 number 1; max_non_canonical = max },
          hc',
        )
      ]
      else ancestor_loop ancestor hc hash number max
