-- ===== src/Core/HeaderChain/Reorg/Extend.antt =====
-- core/headerchain.go: what the loop of `Reorg` that extends the chain writes to the canonical index.
use native.Mathlib.Decide.{dec_le}
use mive.Base.{
  ℕ, suc, ◌-◌, ◌≤◌, ◌<◌, ◌≡◌, sym, ◌∙◌, some, List, [], ◌∷◌, arith, ◌==◌, last_of, if◌then◌else◌,
}
use mive.Core.Types.{Hash, Header, number_u64}
use mive.Core.Rawdb.{Storage}
use mive.Core.Rawdb.Accessors.{read_header}
use mive.Core.Rawdb.Effects.{canonical_after}
use mive.Core.HeaderChain.WellFormed.{IsSound, LinkedAt}
use mive.Core.HeaderChain.Reorg.{extend}
use mive.Core.HeaderChain.Reorg.Stale.{LinkedAt-same}

-- Stored headers, each the parent of the next.
abbrev pub IsBranch : (S : Storage) → S.Db → Header → List Header → Type 0
IsBranch S db first [] = read_header S db first.hash first.number ≡ some first
IsBranch S db first (next ∷ rest) =
    (read_header S db first.hash first.number ≡ some first)
    × (next.parent_hash ≡ first.hash)
    × IsBranch S db next rest

-- The index `c` after the writes of `extend`.
abbrev pub extended : (ℕ → Hash) → List Header → ℕ → Hash
extended c headers i = canonical_after (extend headers) i (c i)

-- The index with one number assigned.
abbrev assigned : (ℕ → Hash) → Header → ℕ → Hash
assigned c header i = if number_u64 header == i then header.hash else c i

module _ {S : Storage} {g : ℕ} {db : S.Db} (sound : IsSound S g db) where
  pub IsBranch-head :
      (first : Header) (rest : List Header)
      → IsBranch S db first rest
      → read_header S db first.hash first.number ≡ some first
  IsBranch-head first [] b = b
  IsBranch-head first (next ∷ rest) b = b.0

  pub IsBranch-last :
      (first : Header) (rest : List Header)
      → IsBranch S db first rest
      → let last = last_of first rest in read_header S db last.hash last.number ≡ some last
  IsBranch-last first [] b = b
  IsBranch-last first (next ∷ rest) b = IsBranch-last next rest b.2

  IsBranch-next :
      (first next : Header) (rest : List Header)
      → IsBranch S db first (next ∷ rest)
      → next.number ≡ suc first.number
  IsBranch-next first next rest b =
      sound.parent_number next.hash next.number first.number {parent = first}
        (IsBranch-head next rest b.2) (rw b.1 b.0)

  pub number_u64-eq :
      (first : Header) (rest : List Header)
      → IsBranch S db first rest
      → number_u64 first ≡ first.number
  number_u64-eq first rest b = omega (arith, (sound.bounded _ _ (IsBranch-head first rest b)).1)

  pub IsBranch-le :
      (first : Header) (rest : List Header)
      → IsBranch S db first rest
      → first.number ≤ (last_of first rest).number
  IsBranch-le first [] b = omega arith
  IsBranch-le first (next ∷ rest) b =
      omega (arith, IsBranch-next first next rest b, IsBranch-le next rest b.2)

  -- Nothing is written outside the numbers of the headers.
  pub extended-outside :
      (first : Header) (rest : List Header) (c : ℕ → Hash) (n : ℕ)
      → IsBranch S db first rest
      → (first.number ≤ n → (last_of first rest).number < n)
      → extended c (first ∷ rest) n ≡ c n
  unfolding extend canonical_after
  extended-outside first [] c n b out = ground (arith, number_u64-eq first [] b)
  extended-outside first (next ∷ rest) c n b out = ground (
    arith,
    number_u64-eq first (next ∷ rest) b,
    IsBranch-next first next rest b,
    IsBranch-le next rest b.2,
    extended-outside next rest c n b.2 (λ le. out (omega (arith, IsBranch-next first next rest b))),
  )

  -- The number of the last header gets its hash.
  pub extended-last :
      (first : Header) (rest : List Header) (c : ℕ → Hash)
      → IsBranch S db first rest
      → let last = last_of first rest in extended c (first ∷ rest) last.number ≡ last.hash
  unfolding extend canonical_after
  extended-last first [] c b = ground (arith, number_u64-eq first [] b)
  extended-last first (next ∷ rest) c b = extended-last next rest (assigned c first) b.2

  assigned-LinkedAt :
      (first : Header) (rest : List Header) (c : ℕ → Hash)
      → IsBranch S db first rest
      → ((k : ℕ) → g ≤ k → k < first.number → LinkedAt S g db c k)
      → (g < first.number → first.parent_hash ≡ c (first.number - 1))
      → (k : ℕ) → g ≤ k
      → k ≤ first.number
      → LinkedAt S g db (assigned c first) k
  assigned-LinkedAt first rest c b linked parent k ge le =
      let e = number_u64-eq first rest b in
      elim (dec_le first.number k) [
        | yes top ↦
            let same : k ≡ first.number = omega arith in
            rw same (record {
              header = first;
              stored = rw at_first (IsBranch-head first rest b);
              parent = λ lt. parent lt ∙ sym (below (first.number - 1) (omega arith));
            })
        | no under ↦ LinkedAt-same (λ i lt. sym (below i (omega arith))) (linked k ge (omega arith))
      ]
    where
      below : (i : ℕ) → i < first.number → assigned c first i ≡ c i
      below i lt = ground (arith, number_u64-eq first rest b)

      at_first : assigned c first first.number ≡ first.hash
      at_first = ground (arith, number_u64-eq first rest b)

  -- The index is linked up to the last header.
  pub extended-LinkedAt :
      (first : Header) (rest : List Header) (c : ℕ → Hash)
      → IsBranch S db first rest
      → ((k : ℕ) → g ≤ k → k < first.number → LinkedAt S g db c k)
      → (g < first.number → first.parent_hash ≡ c (first.number - 1))
      → (k : ℕ) → g ≤ k
      → k ≤ (last_of first rest).number
      → LinkedAt S g db (extended c (first ∷ rest)) k
  unfolding extend canonical_after
  extended-LinkedAt first [] c b linked parent k ge le =
      assigned-LinkedAt first [] c b linked parent k ge le
  extended-LinkedAt first (next ∷ rest) c b linked parent k ge le =
      let above = IsBranch-next first next rest b in
      extended-LinkedAt next rest (assigned c first) b.2
        (λ j h lt. assigned-LinkedAt first (next ∷ rest) c b linked parent j h (omega arith))
        (λ lt. b.1 ∙ ground (arith, number_u64-eq first (next ∷ rest) b)) k ge le
