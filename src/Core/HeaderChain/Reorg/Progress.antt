-- ===== src/Core/HeaderChain/Reorg/Progress.antt =====
-- core/headerchain.go: when `Reorg` comes to an end, and when without an error.
use mive.Base.{
  ℕ, zero, suc, false, ◌-◌, ◌≤◌, ◌<◌, ◌≡◌, ◌≢◌, sym, subst, none, some, List, ◌∷◌, ◌++◌, arith,
  ◌==◌, last_of, Bool-cases, Option-cases, inl, inr, add64, sub64,
}
use native.Mathlib.Decide.{dec_le}
use mive.Core.Types.{Hash, Header, number_u64}
use mive.Core.Lru.{Lru, IsLru}
use mive.Core.Rawdb.{Storage, Write}
use mive.Core.Rawdb.Accessors.{read_header}
use mive.Core.Rawdb.Effects.{IsStorage}
use mive.Core.HeaderChain.{HeaderChain, get_header}
use mive.Core.HeaderChain.WellFormed.{IsSound, IsCoherent, IsWellFormed}
use mive.Core.HeaderChain.Lookup.{chain_db-get_header, get_header_complete, get_header-IsCoherent}
use mive.Core.HeaderChain.Reorg.{clear_above, extend, overwrite_stale, finish_reorg, reorg}
use mive.Core.HeaderChain.Reorg.Clear.{clear_above-ne-none}
use mive.Core.HeaderChain.Reorg.Stale.{parent_of}
use mive.Core.HeaderChain.Reorg.Extend.{IsBranch, IsBranch-head, IsBranch-last, number_u64-eq}
use mive.Core.HeaderChain.Reorg.Canonical.{ends}

-- Every stored header has its parent stored too, down to the genesis block, the only header with its
-- number.
pub record IsClosed (S : Storage) (genesis : ℕ) (db : S.Db) : Type 0 where
  pub parents :
      (h : Hash) (n : ℕ) {header : Header}
      → read_header S db h n ≡ some header
      → genesis < n
      → read_header S db header.parent_hash (n - 1) ≢ none
  pub unique :
      (h : Hash) {header : Header}
      → read_header S db h genesis ≡ some header
      → S.read_canonical_hash db genesis ≡ h

above_genesis :
    {S : Storage} {g : ℕ} {db : S.Db} (n : ℕ) (h : Hash) {header : Header}
    → IsSound S g db
    → IsClosed S g db
    → read_header S db h n ≡ some header
    → (S.read_canonical_hash db n == h) ≡ false
    → g < n
above_genesis {S} {g} {db} n h {header} sound closed stored stale = elim (dec_le (suc g) n) [
  | yes above ↦ above
  | no below ↦
      let e : n ≡ g = omega (arith, (sound.bounded h n stored).0) in
      let first = closed.unique h (subst (λ k. read_header S db h k ≡ some header) e stored) in
      let same = subst (λ k. S.read_canonical_hash db k ≡ h) (sym e) first in
      absurd (ground (arith, same, stale))
]

module _ {S : Storage} {H : Lru Hash Header} {N : Lru Hash ℕ} (lru : IsLru H) {g : ℕ} where
  overwrite_stale-none :
      (fuel : ℕ) (hc : HeaderChain S H N) (header : Header) (n : ℕ) (h : Hash)
      → IsSound S g hc.chain_db
      → IsClosed S g hc.chain_db
      → IsCoherent hc
      → read_header S hc.chain_db h n ≡ some header
      → n < fuel
      → (overwrite_stale fuel hc header n h).2 ≡ none
  unfolding overwrite_stale
  overwrite_stale-none zero hc header n h sound closed coherent stored lt = absurd (omega arith)
  overwrite_stale-none (suc fuel) hc header n h sound closed coherent stored lt =
      let m = sub64 (number_u64 header) 1 in
      let hc' = (get_header hc header.parent_hash m).1 in
      let same = chain_db-get_header hc header.parent_hash m in
      elim (Bool-cases (S.read_canonical_hash hc.chain_db n == h)) [
        | inl found ↦ ground arith
        | inr stale ↦ elim (Bool-cases (n == 0)) [
          | inl first ↦ ground arith
          | inr later ↦
              let above : g < n = above_genesis n h sound closed stored stale in
              let number : m ≡ n - 1 =
                omega (arith, (sound.keyed h n stored).1, (sound.bounded h n stored).1) in
              elim (Option-cases (get_header hc header.parent_hash m).0) [
                | inl missing ↦
                    elim (Option-cases (read_header S hc.chain_db header.parent_hash m)) [
                      | inl lost ↦ absurd (closed.parents h n stored above (rw number at lost))
                      | inr (p, kept) ↦ absurd (
                          get_header_complete lru hc sound coherent header.parent_hash m kept
                            missing)
                    ]
                | inr (parent, known) ↦
                    let (kept, next) = parent_of lru hc header n h sound coherent stored known in
                    let ih =
                      overwrite_stale-none fuel hc' parent m header.parent_hash (rw same sound)
                        (rw same closed)
                        (get_header-IsCoherent lru hc sound coherent header.parent_hash m)
                        (rw same kept) (omega arith) in
                    ground (arith, ih)
              ]
        ]
      ]

  -- `Reorg` of a chain of stored headers, in a well-formed chain, returns no error if every batch
  -- can be written, every stored header has its parent stored down to the genesis block, the only
  -- header with its number, and the fuel exceeds the numbers of the first header and of the head:
  -- both loops come to an end.
  pub reorg-none :
      (laws : IsStorage S) (fuel : ℕ) (hc : HeaderChain S H N) (first : Header) (rest : List Header)
      → IsWellFormed g hc
      → IsBranch S hc.chain_db first rest
      → IsClosed S g hc.chain_db
      → ((ws : List Write) (db : S.Db) → S.commit ws db ≢ none)
      → first.number ≤ fuel
      → hc.current_header.number ≤ fuel
      → (reorg (suc fuel) hc (first ∷ rest)).1 ≡ none
  unfolding reorg finish_reorg
  reorg-none laws fuel hc first rest wf b closed writes enough enough' =
      let last = last_of first rest in
      let back = overwrite_stale (suc fuel) hc first (number_u64 first) first.hash in
      let up : add64 (number_u64 last) 1 ≡ suc last.number =
        omega (arith, (wf.sound.bounded _ _ (IsBranch-last wf.sound first rest b)).1) in
      let start = number_u64-eq wf.sound first rest b in
      let cut : clear_above S (suc fuel) hc.chain_db (add64 (number_u64 last) 1) ≢ none = rw up (
        clear_above-ne-none S hc.chain_db hc.current_header.number fuel (suc last.number)
          (ends laws hc wf first rest b) (omega arith)) in
      let quiet : back.2 ≡ none =
        overwrite_stale-none (suc fuel) hc first (number_u64 first) first.hash wf.sound closed
          wf.coherent (rw start (IsBranch-head wf.sound first rest b)) (omega (arith, start)) in
      elim (Option-cases (clear_above S (suc fuel) hc.chain_db (add64 (number_u64 last) 1))) [
        | inl out ↦ absurd (cut out)
        | inr (cleared, e) ↦ ground (
          arith,
          quiet,
          e,
          writes (extend (first ∷ rest)) hc.chain_db,
          writes (cleared ++ (back.1 ++ extend (first ∷ rest))) back.0.chain_db,
        )
      ]
