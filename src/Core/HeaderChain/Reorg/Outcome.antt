-- ===== src/Core/HeaderChain/Reorg/Outcome.antt =====
-- core/headerchain.go: the outcomes of `Reorg`, with and without an error.
use mathlib.Core.Path.{subst}
use mive.Base.{
  ℕ, zero, suc, ◌≤◌, ◌≡◌, refl, ◌≢◌, ◌⊎◌, inl, inr, sym, none, some, List, [], ◌∷◌, ◌++◌, arith,
  ◌==◌, last_of, Bool-cases, Option-cases, add64, sub64, false,
}
use mive.Core.Types.{Hash, Header, number_u64}
use mive.Core.Lru.{Lru, IsLru}
use mive.Core.Rawdb.{Storage, Write}
use mive.Core.Rawdb.Effects.{IsStorage}
use mive.Core.HeaderChain.{HeaderChain, get_header}
use mive.Core.HeaderChain.WellFormed.{IsWellFormed}
use mive.Core.HeaderChain.Lookup.{
  chain_db-get_header, current_header-get_header, get_header-IsWellFormed,
}
use mive.Core.HeaderChain.Committed.{IndexOnly-append}
use mive.Core.HeaderChain.Reorg.{clear_above, extend, overwrite_stale, finish_reorg, reorg}
use mive.Core.HeaderChain.Reorg.Stale.{Stale, overwrite_stale-Stale}
use mive.Core.HeaderChain.Reorg.Extend.{
  IsBranch, IsBranch-head, IsBranch-last, IsBranch-le, number_u64-eq,
}
use mive.Core.HeaderChain.Reorg.Canonical.{
  after, IsIndex, extend-IsIndex, switch-IsIndex, finish_reorg-IsWellFormed, extend-IndexOnly,
  clear_above-IndexOnly, Stale-IndexOnly,
}

-- `hc'` differs from `hc` in its caches at most.
pub record SameChain {S : Storage} {H : Lru Hash Header} {N : Lru Hash ℕ}
    (hc hc' : HeaderChain S H N) : Type 0 where
  pub same_db : hc'.chain_db ≡ hc.chain_db
  pub same_head : hc'.current_header ≡ hc.current_header

module _ {S : Storage} {H : Lru Hash Header} {N : Lru Hash ℕ} where
  -- The walk back reads through the cache, and changes nothing else.
  pub overwrite_stale-SameChain :
      (fuel : ℕ) (hc : HeaderChain S H N) (header : Header) (n : ℕ) (h : Hash)
      → SameChain hc (overwrite_stale fuel hc header n h).0
  unfolding overwrite_stale
  overwrite_stale-SameChain zero hc header n h = record { same_db = refl; same_head = refl }
  overwrite_stale-SameChain (suc fuel) hc header n h =
      let m = sub64 (number_u64 header) 1 in
      let hc' = (get_header hc header.parent_hash m).1 in
      elim (Option-cases (get_header hc header.parent_hash m).0) [
        | inl missing ↦ ground (
          arith,
          chain_db-get_header hc header.parent_hash m,
          current_header-get_header hc header.parent_hash m,
        )
        | inr (p, known) ↦
            let ih = overwrite_stale-SameChain fuel hc' p m header.parent_hash in
            ground (
              arith,
              ih.same_db,
              ih.same_head,
              chain_db-get_header hc header.parent_hash m,
              current_header-get_header hc header.parent_hash m,
            )
      ]

  -- `Reorg` with an error has changed neither the database nor the head.
  pub reorg-SameChain :
      (fuel : ℕ) (hc : HeaderChain S H N) (headers : List Header)
      → (reorg fuel hc headers).1 ≢ none
      → SameChain hc (reorg fuel hc headers).0
  unfolding reorg finish_reorg
  reorg-SameChain fuel hc [] failed = record { same_db = refl; same_head = refl }
  reorg-SameChain fuel hc (first ∷ rest) failed =
      let back = overwrite_stale-SameChain fuel hc first (number_u64 first) first.hash in
      ground (arith, back.same_db, back.same_head)

module _ {S : Storage} {H : Lru Hash Header} {N : Lru Hash ℕ} where
  -- What a reorganisation without an error has done, where the head is not the first parent.
  switched :
      (fuel : ℕ) (hc : HeaderChain S H N) (first : Header) (rest : List Header)
      → (first.parent_hash == hc.current_header.hash) ≡ false
      → (reorg fuel hc (first ∷ rest)).1 ≡ none
      → let last = last_of first rest in
        let back = overwrite_stale fuel hc first (number_u64 first) first.hash in
        (cleared : List Write) × (clear_above S fuel hc.chain_db (add64 (number_u64 last) 1)
          ≡ some cleared)
        × (back.2 ≡ none)
        × (reorg fuel hc (first ∷ rest)
            ≡ finish_reorg back.0 last (cleared ++ (back.1 ++ extend (first ∷ rest))))
  unfolding reorg
  switched fuel hc first rest turns fine =
      elim (Option-cases
        (clear_above S fuel hc.chain_db (add64 (number_u64 (last_of first rest)) 1))) [
          | inl out ↦ ground arith
          | inr (cleared, cut) ↦ (cleared, cut, ground arith, ground arith)
        ]

  last-current_header :
      (fuel : ℕ) (hc : HeaderChain S H N) (first : Header) (rest : List Header)
      → (reorg fuel hc (first ∷ rest)).1 ≡ none
      → (reorg fuel hc (first ∷ rest)).0.current_header ≡ last_of first rest
  unfolding reorg finish_reorg
  last-current_header fuel hc first rest fine = ground arith

module _ {S : Storage} {H : Lru Hash Header} {N : Lru Hash ℕ} (lru : IsLru H) {g : ℕ} where
  overwrite_stale-IsWellFormed :
      (fuel : ℕ) (hc : HeaderChain S H N) (header : Header) (n : ℕ) (h : Hash)
      → IsWellFormed g hc
      → IsWellFormed g (overwrite_stale fuel hc header n h).0
  unfolding overwrite_stale
  overwrite_stale-IsWellFormed zero hc header n h wf = wf
  overwrite_stale-IsWellFormed (suc fuel) hc header n h wf =
      let m = sub64 (number_u64 header) 1 in
      let hc' = (get_header hc header.parent_hash m).1 in
      let r = overwrite_stale (suc fuel) hc header n h in
      let wf' : IsWellFormed g hc' =
        get_header-IsWellFormed lru hc wf.sound wf.coherent header.parent_hash m wf in
      elim (Option-cases (get_header hc header.parent_hash m).0) [
        | inl missing ↦
            let ends : (r.0 ≡ hc) ⊎ (r.0 ≡ hc') = ground arith in
            elim ends [
              | inl e ↦ subst (IsWellFormed g) (sym e) wf
              | inr e ↦ subst (IsWellFormed g) (sym e) wf'
            ]
        | inr (p, known) ↦
            let back = overwrite_stale fuel hc' p m header.parent_hash in
            let ends : (r.0 ≡ hc) ⊎ (r.0 ≡ back.0) = ground arith in
            elim ends [
              | inl e ↦ subst (IsWellFormed g) (sym e) wf
              | inr e ↦
                  subst (IsWellFormed g) (sym e)
                    (overwrite_stale-IsWellFormed fuel hc' p m header.parent_hash wf')
            ]
      ]

  switch-IsWellFormed :
      (laws : IsStorage S) (fuel : ℕ) (hc : HeaderChain S H N) (first : Header) (rest : List Header)
      → IsWellFormed g hc
      → IsBranch S hc.chain_db first rest
      → (first.parent_hash == hc.current_header.hash) ≡ false
      → (reorg fuel hc (first ∷ rest)).1 ≡ none
      → IsWellFormed g (reorg fuel hc (first ∷ rest)).0
  switch-IsWellFormed laws fuel hc first rest wf b turns fine =
      let last = last_of first rest in
      let back = overwrite_stale fuel hc first (number_u64 first) first.hash in
      let (cleared, cut, quiet, e) = switched fuel hc first rest turns fine in
      let stored = IsBranch-head wf.sound first rest b in
      let ge : g ≤ last.number =
        omega (arith, (wf.sound.bounded _ _ stored).0, IsBranch-le wf.sound first rest b) in
      let up : add64 (number_u64 last) 1 ≡ suc last.number =
        omega (arith, (wf.sound.bounded _ _ (IsBranch-last wf.sound first rest b)).1) in
      let start = number_u64-eq wf.sound first rest b in
      let run =
        subst (λ n. Stale S hc.chain_db n first.hash back.1) start
          (overwrite_stale-Stale lru fuel hc first (number_u64 first) first.hash wf.sound
            wf.coherent (rw start stored) refl quiet) in
      let cut' = subst (λ n. clear_above S fuel hc.chain_db n ≡ some cleared) up cut in
      let ws = cleared ++ (back.1 ++ extend (first ∷ rest)) in
      let same = overwrite_stale-SameChain fuel hc first (number_u64 first) first.hash in
      subst (λ r. IsWellFormed g r.0) (sym e)
        (finish_reorg-IsWellFormed laws back.0
          (overwrite_stale-IsWellFormed fuel hc first (number_u64 first) first.hash wf) last ws
          (IndexOnly-append cleared _ (clear_above-IndexOnly S fuel hc.chain_db _ cut)
            (IndexOnly-append back.1 _ (Stale-IndexOnly run) (extend-IndexOnly (first ∷ rest))))
          ge
          (subst (λ db. IsIndex S g db (after ws (S.read_canonical_hash db)) last)
            (sym same.same_db) (switch-IsIndex laws hc wf first rest b fuel cut' run))
          (rw e at fine))

  kept-IsWellFormed :
      (laws : IsStorage S) (fuel : ℕ) (hc : HeaderChain S H N) (first : Header) (rest : List Header)
      → IsWellFormed g hc
      → IsBranch S hc.chain_db first rest
      → (reorg fuel hc (first ∷ rest)).1 ≡ none
      → IsWellFormed g (reorg fuel hc (first ∷ rest)).0
  kept-IsWellFormed laws fuel hc first rest wf b fine =
      let last = last_of first rest in
      let stored = IsBranch-head wf.sound first rest b in
      let ge : g ≤ last.number =
        omega (arith, (wf.sound.bounded _ _ stored).0, IsBranch-le wf.sound first rest b) in
      elim (Bool-cases (first.parent_hash == hc.current_header.hash)) [
        | inl follows ↦
            let e : reorg fuel hc (first ∷ rest) ≡ finish_reorg hc last (extend (first ∷ rest)) =
              unfold reorg in ground arith in
            subst (λ r. IsWellFormed g r.0) (sym e)
              (finish_reorg-IsWellFormed laws hc wf last (extend (first ∷ rest))
                (extend-IndexOnly (first ∷ rest)) ge
                (extend-IsIndex laws hc wf first rest b (ground arith)) (rw e at fine))
        | inr turns ↦ switch-IsWellFormed laws fuel hc first rest wf b turns fine
      ]

  -- `Reorg` of a chain of stored headers, in a well-formed chain, keeps the chain well formed and makes
  -- the last header its head, if it returns no error.
  pub reorg-IsWellFormed :
      (laws : IsStorage S) (fuel : ℕ) (hc : HeaderChain S H N) (first : Header) (rest : List Header)
      → IsWellFormed g hc
      → IsBranch S hc.chain_db first rest
      → (reorg fuel hc (first ∷ rest)).1 ≡ none
      → IsWellFormed g (reorg fuel hc (first ∷ rest)).0
        × ((reorg fuel hc (first ∷ rest)).0.current_header ≡ last_of first rest)
  reorg-IsWellFormed laws fuel hc first rest wf b fine = (
    kept-IsWellFormed laws fuel hc first rest wf b fine,
    last-current_header fuel hc first rest fine,
  )
