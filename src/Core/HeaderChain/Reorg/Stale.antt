-- ===== src/Core/HeaderChain/Reorg/Stale.antt =====
-- core/headerchain.go: what the loop of `Reorg` that goes back to the cross link
-- writes to the canonical index.
use mathlib.Core.Path.{subst}
use mive.Base.{
  ℕ, zero, suc, ◌-◌, ◌≤◌, ◌<◌, ◌≡◌, refl, none, some, List, [], ◌∷◌, arith, ◌==◌, Bool-cases,
  Option-cases, inl, inr, sub64, ◌∙◌, ap, sym,
}
use native.Mathlib.Decide.{dec_le}
use mive.Core.Types.{Hash, Header, number_u64}
use mive.Core.Lru.{Lru, IsLru}
use mive.Core.Rawdb.{Storage, Write, write_canonical_hash}
use mive.Core.Rawdb.Accessors.{read_header}
use mive.Core.Rawdb.Effects.{canonical_after}
use mive.Core.HeaderChain.{HeaderChain, get_header}
use mive.Core.HeaderChain.WellFormed.{IsSound, IsCoherent, LinkedAt, IsCanonical}
use mive.Core.HeaderChain.Lookup.{chain_db-get_header, get_header-stored, get_header-IsCoherent}
use mive.Core.HeaderChain.Reorg.{overwrite_stale}

-- A run of the loop that overwrites stale numbers, from `n` and `h` back to the cross link.
pub data Stale (S : Storage) (db : S.Db) : ℕ → Hash → List Write → Type 0 where
  cross :
      {n : ℕ} {h : Hash} {ws : List Write}
      → S.read_canonical_hash db n ≡ h
      → ws ≡ []
      → Stale S db n h ws
  bottom :
      {n : ℕ} {h : Hash} {ws : List Write}
      → n ≡ 0
      → ws ≡ write_canonical_hash h n ∷ []
      → Stale S db n h ws
  back :
      {n : ℕ} {h : Hash} {ws : List Write} (header parent : Header) (m : ℕ) (vs : List Write)
      → read_header S db h n ≡ some header
      → read_header S db header.parent_hash m ≡ some parent
      → n ≡ suc m
      → Stale S db m header.parent_hash vs
      → ws ≡ write_canonical_hash h n ∷ vs
      → Stale S db n h ws

module _ {S : Storage} {H : Lru Hash Header} {N : Lru Hash ℕ} (lru : IsLru H) {g : ℕ} where
  pub parent_of :
      (hc : HeaderChain S H N) (header : Header) {parent : Header} (n : ℕ) (h : Hash)
      → IsSound S g hc.chain_db
      → IsCoherent hc
      → read_header S hc.chain_db h n ≡ some header
      → (get_header hc header.parent_hash (sub64 (number_u64 header) 1)).0 ≡ some parent
      → let m = sub64 (number_u64 header) 1 in
        (read_header S hc.chain_db header.parent_hash m ≡ some parent) × (n ≡ suc m)
  parent_of hc header {parent} n h sound coherent stored known =
      let kept = get_header-stored lru hc sound coherent header.parent_hash _ known in
      let next = sound.parent_number h n parent.number stored kept in
      let e : parent.number ≡ sub64 (number_u64 header) 1 =
        omega (arith, (sound.keyed h n stored).1, (sound.bounded h n stored).1, next) in
      (
        subst (λ k. read_header S hc.chain_db header.parent_hash k ≡ some parent) e kept,
        next ∙ ap suc e,
      )

  -- A run that ends without an error is such a run.
  pub overwrite_stale-Stale :
      (fuel : ℕ) (hc : HeaderChain S H N) (header : Header) (n : ℕ) (h : Hash) {ws : List Write}
      → IsSound S g hc.chain_db
      → IsCoherent hc
      → read_header S hc.chain_db h n ≡ some header
      → (overwrite_stale fuel hc header n h).1 ≡ ws
      → (overwrite_stale fuel hc header n h).2 ≡ none
      → Stale S hc.chain_db n h ws
  unfolding overwrite_stale
  overwrite_stale-Stale zero hc header n h sound coherent stored run fine = cc
  overwrite_stale-Stale (suc fuel) hc header n h {ws} sound coherent stored run fine =
      let m = sub64 (number_u64 header) 1 in
      let hc' = (get_header hc header.parent_hash m).1 in
      let same = chain_db-get_header hc header.parent_hash m in
      elim (Bool-cases (S.read_canonical_hash hc.chain_db n == h)) [
        | inl found ↦ cross (ground arith) (ground arith)
        | inr stale ↦ elim (Bool-cases (n == 0)) [
          | inl first ↦ bottom (ground arith) (ground arith)
          | inr later ↦ elim (Option-cases (get_header hc header.parent_hash m).0) [
            | inl missing ↦ ground arith
            | inr (parent, known) ↦
                let (kept, next) = parent_of hc header n h sound coherent stored known in
                back header parent m (overwrite_stale fuel hc' parent m header.parent_hash).1 stored
                  kept next
                  (rw same at (
                    overwrite_stale-Stale fuel hc' parent m header.parent_hash (rw same sound)
                      (get_header-IsCoherent lru hc sound coherent header.parent_hash m)
                      (rw same kept) refl (ground arith)))
                  (ground arith)
          ]
        ]
      ]

-- A linked index looks at its place and the one below alone.
pub LinkedAt-same :
    {S : Storage} {g : ℕ} {db : S.Db} {c d : ℕ → Hash} {k : ℕ}
    → ((i : ℕ) → i ≤ k → c i ≡ d i)
    → LinkedAt S g db c k
    → LinkedAt S g db d k
LinkedAt-same {k = k} same l = record {
  header = l.header;
  stored = rw (← same k (omega arith)) l.stored;
  parent = λ lt. rw (← same (k - 1) (omega arith)) (l.parent lt);
}

module _ {S : Storage} {g : ℕ} {db : S.Db} {head : Header} (sound : IsSound S g db)
    (canonical : IsCanonical S g db head) where
  -- Such a run writes nothing above its start, and leaves a linked index up to there.
  pub Stale-above :
      {n : ℕ} {h : Hash} {ws : List Write}
      → Stale S db n h ws
      → (k : ℕ) (old : Hash) → n < k
      → canonical_after ws k old ≡ old
  unfolding canonical_after
  Stale-above (cross found e) k old lt = rw e
  Stale-above (bottom z e) k old lt = rw e (ground arith)
  Stale-above (back header parent m vs stored known next rest e) k old lt =
      rw e (ground (arith, Stale-above rest k old (omega arith)))

  pub Stale-start :
      {n : ℕ} {h : Hash} {ws : List Write}
      → Stale S db n h ws
      → canonical_after ws n (S.read_canonical_hash db n) ≡ h
  unfolding canonical_after
  Stale-start (cross found e) = rw e found
  Stale-start (bottom z e) = rw e (ground arith)
  Stale-start (back {n = n} {h = h} header parent m vs stored known next rest e) =
      rw e (ground (arith, Stale-above rest n h (omega arith)))

  Stale-skip :
      {n : ℕ} {h : Hash} {ws vs : List Write}
      → ws ≡ write_canonical_hash h n ∷ vs
      → (i : ℕ) → i < n
      → canonical_after vs i (S.read_canonical_hash db i)
        ≡ canonical_after ws i (S.read_canonical_hash db i)
  unfolding canonical_after
  Stale-skip e i lt = rw e (ground arith)

  LinkedAt-start :
      {n : ℕ} {h : Hash} {ws : List Write} (header : Header)
      → Stale S db n h ws
      → read_header S db h n ≡ some header
      → let after = λ (i : ℕ). canonical_after ws i (S.read_canonical_hash db i) in
        (g < n → header.parent_hash ≡ after (n - 1)) → (k : ℕ) → k ≡ n → LinkedAt S g db after k
  LinkedAt-start header run stored parent k e =
      rw e (record { header = header; stored = rw (Stale-start run) stored; parent = parent })

  pub Stale-LinkedAt :
      {n : ℕ} {h : Hash} {ws : List Write} (header : Header)
      → Stale S db n h ws
      → read_header S db h n ≡ some header
      → (k : ℕ) → g ≤ k
      → k ≤ n
      → LinkedAt S g db (λ i. canonical_after ws i (S.read_canonical_hash db i)) k
  Stale-LinkedAt {n} header (cross found e) stored k ge le =
      let n-le : n ≤ head.number = ground (arith, canonical.above n, sound.keyed _ n stored) in
      LinkedAt-same (λ i lt. rw e (unfold canonical_after in refl))
        (canonical.linked k ge (omega arith))
  Stale-LinkedAt header (bottom z e) stored k ge le =
      LinkedAt-start header (bottom z e) stored (λ lt. absurd (omega arith)) k (omega arith)
  Stale-LinkedAt {n} {ws} top_header (back header parent m vs stored known next rest e) _ k ge le =
      elim (dec_le n k) [
        | yes last ↦
            LinkedAt-start header (back header parent m vs stored known next rest e) stored
              (λ lt.
                sym (Stale-start rest)
                ∙ Stale-skip e m (omega arith)
                ∙ ap (λ i. canonical_after ws i (S.read_canonical_hash db i)) (omega arith))
              k (omega arith)
        | no before ↦
            LinkedAt-same (λ i lt. Stale-skip e i (omega arith))
              (Stale-LinkedAt parent rest known k ge (omega arith))
      ]
