-- ===== src/Core/HeaderChain/Reorg/Canonical.antt =====
-- core/headerchain.go: the canonical index and the stored headers after the batch of `Reorg`.
use mive.Base.{
  ℕ, zero, suc, ◌-◌, ◌≤◌, ◌<◌, ◌≡◌, refl, sym, ◌∙◌, none, some, List, [], ◌∷◌, ◌++◌, arith, ◌==◌,
  last_of, Bool-cases, Option-cases, inl, inr, add64, ap,
}
use mive.Core.Types.{Hash, zero_hash, Header}
use mive.Core.Lru.{Lru}
use mive.Core.Rawdb.{Storage, Write}
use mive.Core.Rawdb.Accessors.{read_header}
use mive.Core.Rawdb.Effects.{IsStorage, canonical_after, canonical_after-append}
use mive.Core.HeaderChain.{HeaderChain}
use mive.Core.HeaderChain.WellFormed.{LinkedAt, IsWellFormed}
use mive.Core.HeaderChain.Committed.{
  IndexOnly, read_header-IndexOnly, IsSound-IndexOnly, LinkedAt-IndexOnly,
}
use mive.Core.HeaderChain.Reorg.{clear_above, extend, finish_reorg}
use mive.Core.HeaderChain.Reorg.Clear.{EndsAt, clear_above-below, clear_above-from}
use mive.Core.HeaderChain.Reorg.Stale.{
  Stale, cross, bottom, back, Stale-above, Stale-start, Stale-LinkedAt, LinkedAt-same,
}
use mive.Core.HeaderChain.Reorg.Extend.{
  IsBranch, IsBranch-head, IsBranch-le, extended-outside, extended-last, extended-LinkedAt,
}

pub extend-IndexOnly : (headers : List Header) → IndexOnly (extend headers)
unfolding extend
extend-IndexOnly [] = tt
extend-IndexOnly (header ∷ headers) = (refl, (refl, extend-IndexOnly headers))

pub clear_above-IndexOnly :
    (S : Storage) (fuel : ℕ) (db : S.Db) (i : ℕ) {ws : List Write}
    → clear_above S fuel db i ≡ some ws
    → IndexOnly ws
unfolding clear_above
clear_above-IndexOnly S zero db i e = cc
clear_above-IndexOnly S (suc fuel) db i {ws} e =
    elim (Bool-cases (S.read_canonical_hash db i == zero_hash)) [
      | inl done ↦ ground arith
      | inr full ↦ elim (Option-cases (clear_above S fuel db (add64 i 1))) [
        | inl out ↦ ground arith
        | inr (vs, more) ↦
            ground (arith, clear_above-IndexOnly S fuel db (add64 i 1) {ws = vs} more)
      ]
    ]

pub Stale-IndexOnly :
    {S : Storage} {db : S.Db} {n : ℕ} {h : Hash} {ws : List Write}
    → Stale S db n h ws
    → IndexOnly ws
Stale-IndexOnly (cross found e) = rw e tt
Stale-IndexOnly (bottom z e) = rw e (refl, tt)
Stale-IndexOnly (back header parent m vs stored known next rest e) =
    rw e (refl, Stale-IndexOnly rest)

-- The index that a batch leaves, from the one before it.
abbrev pub after : List Write → (ℕ → Hash) → ℕ → Hash
after ws c i = canonical_after ws i (c i)

module _ {S : Storage} {H : Lru Hash Header} {N : Lru Hash ℕ} where
  abbrev pub index : HeaderChain S H N → ℕ → Hash
  index hc = S.read_canonical_hash hc.chain_db

-- An index that is linked up to `last`, and empty above it.
pub record IsIndex (S : Storage) (g : ℕ) (db : S.Db) (c : ℕ → Hash) (last : Header) : Type 0 where
  pub top : c last.number ≡ last.hash
  pub above : (n : ℕ) → last.number < n → c n ≡ zero_hash
  pub linked : (n : ℕ) → g ≤ n → n ≤ last.number → LinkedAt S g db c n

module _ {S : Storage} {H : Lru Hash Header} {N : Lru Hash ℕ} (laws : IsStorage S) {g : ℕ}
    (hc : HeaderChain S H N) (wf : IsWellFormed g hc) where
  pub finish_reorg-IsWellFormed :
      (last : Header) (ws : List Write)
      → IndexOnly ws
      → g ≤ last.number
      → IsIndex S g hc.chain_db (after ws (index hc)) last
      → (finish_reorg hc last ws).1 ≡ none
      → IsWellFormed g (finish_reorg hc last ws).0
  unfolding finish_reorg
  finish_reorg-IsWellFormed last ws only ge index fine =
      elim (Option-cases (S.commit ws hc.chain_db)) [
        | inl failed ↦ ground arith
        | inr (db, done) ↦
            rw (done, finish_reorg)
              (record {
                sound = IsSound-IndexOnly laws ws only done wf.sound;
                coherent = record {
                  cached = λ h {header} e.
                      rw (read_header-IndexOnly laws ws only done h header.number)
                        (wf.coherent.cached h e);
                };
                canonical = record {
                  floor = ge;
                  top =
                      rw (laws.read_canonical_hash-commit ws hc.chain_db last.number done)
                        index.top;
                  above = λ n lt.
                      rw (laws.read_canonical_hash-commit ws hc.chain_db n done) (index.above n lt);
                  linked = λ n h k.
                      LinkedAt-same
                        (λ i le. sym (laws.read_canonical_hash-commit ws hc.chain_db i done))
                        (LinkedAt-IndexOnly laws ws only done (index.linked n h k));
                };
              })
      ]

  pub current_stored :
      (h : Header) × (read_header S hc.chain_db hc.current_header.hash hc.current_header.number
        ≡ some h)
  current_stored =
      let l = wf.canonical.linked hc.current_header.number wf.canonical.floor (omega arith) in
      (l.header, rw (← wf.canonical.top) l.stored)

  -- The first header follows the head: nothing has to be taken back.
  pub extend-IsIndex :
      (first : Header) (rest : List Header)
      → IsBranch S hc.chain_db first rest
      → first.parent_hash ≡ hc.current_header.hash
      → IsIndex S g hc.chain_db (after (extend (first ∷ rest)) (index hc)) (last_of first rest)
  extend-IsIndex first rest b follows =
      let next : first.number ≡ suc hc.current_header.number =
        wf.sound.parent_number first.hash first.number hc.current_header.number
          {parent = current_stored.0} (IsBranch-head wf.sound first rest b)
          (rw follows current_stored.1) in
      record {
        top = extended-last wf.sound first rest (index hc) b;
        above = λ n lt.
            extended-outside wf.sound first rest (index hc) n b (λ _. lt)
            ∙ wf.canonical.above n (omega (arith, IsBranch-le wf.sound first rest b));
        linked =
            extended-LinkedAt wf.sound first rest (index hc) b
              (λ k h lt. wf.canonical.linked k h (omega arith))
              (λ lt. follows ∙ sym wf.canonical.top ∙ ap (index hc) (omega arith));
      }

  pub ends :
      (first : Header) (rest : List Header)
      → IsBranch S hc.chain_db first rest
      → EndsAt (index hc) (suc (last_of first rest).number) hc.current_header.number
  ends first rest b =
      let ge = (wf.sound.bounded _ _ (IsBranch-head wf.sound first rest b)).0 in
      let up = IsBranch-le wf.sound first rest b in
      record {
        filled = λ m h le.
            (wf.sound.keyed (index hc m) m
              (wf.canonical.linked m (omega (arith, ge, up)) le).stored).2;
        above = wf.canonical.above;
        bounded = (wf.sound.bounded _ _ current_stored.1).1;
      }

  module _ (first : Header) (rest : List Header) (b : IsBranch S hc.chain_db first rest) (fuel : ℕ)
      {cleared stale : List Write}
      (cut : clear_above S fuel hc.chain_db (suc (last_of first rest).number) ≡ some cleared)
      (run : Stale S hc.chain_db first.number first.hash stale) where
    -- The index when the numbers above are cleared and the stale ones overwritten.
    abbrev switched : ℕ → Hash
    switched i = canonical_after stale i (after cleared (index hc) i)

    switched-below :
        (i : ℕ) → i ≤ (last_of first rest).number → after stale (index hc) i ≡ switched i
    switched-below i le = ap (canonical_after stale i) (
        sym (
          clear_above-below S hc.chain_db _ fuel _ i (index hc i) cut (ends first rest b)
            (omega arith)))

    switched-LinkedAt : (k : ℕ) → g ≤ k → k ≤ first.number → LinkedAt S g hc.chain_db switched k
    switched-LinkedAt k ge le =
        LinkedAt-same (λ i lt. switched-below i (omega (arith, IsBranch-le wf.sound first rest b)))
          (Stale-LinkedAt wf.sound wf.canonical first run (IsBranch-head wf.sound first rest b) k ge
            le)

    switched-parent : g < first.number → first.parent_hash ≡ switched (first.number - 1)
    switched-parent lt =
        let l = switched-LinkedAt first.number (omega arith) (omega arith) in
        let start : switched first.number ≡ first.hash =
          sym (switched-below first.number (IsBranch-le wf.sound first rest b))
          ∙ Stale-start wf.sound wf.canonical run in
        let same : some l.header ≡ some first =
          sym l.stored ∙ rw start (IsBranch-head wf.sound first rest b) in
        let e : l.header ≡ first = cc in rw e at (l.parent lt)

    pub switch-IsIndex :
        IsIndex S g hc.chain_db
          (after (cleared ++ (stale ++ extend (first ∷ rest))) (index hc))
          (last_of first rest)
    switch-IsIndex =
        let split = λ (i : ℕ).
          canonical_after-append cleared (stale ++ extend (first ∷ rest)) i (index hc i)
          ∙ canonical_after-append stale (extend (first ∷ rest)) i (after cleared (index hc) i) in
        record {
          top = split _ ∙ extended-last wf.sound first rest switched b;
          above = λ n lt.
              split n
              ∙ extended-outside wf.sound first rest switched n b (λ _. lt)
              ∙ Stale-above wf.sound wf.canonical run n _
                  (omega (arith, IsBranch-le wf.sound first rest b))
              ∙ clear_above-from S hc.chain_db _ fuel _ n cut (ends first rest b) lt;
          linked = λ n h le.
              LinkedAt-same (λ i _. sym (split i))
                (extended-LinkedAt wf.sound first rest switched b
                  (λ k ge lt. switched-LinkedAt k ge (omega arith)) switched-parent n h le);
        }
