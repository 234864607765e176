-- ===== src/Core/HeaderChain/Ancestor/Path.antt =====
-- core/headerchain.go: the hash that `GetAncestor` answers with, by parent links.
use native.Mathlib.Decide.{dec_le}
use mive.Base.{
  ℕ, zero, suc, ◌+◌, ◌-◌, ◌≤◌, ◌≡◌, sym, ap, subst, ◌∙◌, some, arith, ◌==◌, sub64, Bool-cases,
  Option-cases, inl, inr,
}
use mive.Core.Types.{Hash, Header}
use mive.Core.Lru.{Lru, IsLru}
use mive.Core.Rawdb.{Storage}
use mive.Core.Rawdb.Accessors.{read_header}
use mive.Core.HeaderChain.{HeaderChain, get_header}
use mive.Core.HeaderChain.WellFormed.{IsSound, IsCoherent, IsCanonical, IsWellFormed}
use mive.Core.HeaderChain.Lookup.{
  chain_db-get_header, get_header_complete, get_header-stored, get_header-IsCoherent,
}
use mive.Core.HeaderChain.Reorg.Progress.{IsClosed}
use mive.Core.HeaderChain.Ancestor.{ancestor_loop, get_ancestor}

-- From the header with a hash and a number, so many parent links lead to a hash.
pub data Up (S : Storage) (db : S.Db) : ℕ → Hash → ℕ → Hash → Type 0 where
  here : {h : Hash} {n : ℕ} → Up S db 0 h n h
  up :
      {k : ℕ} {h a : Hash} {n : ℕ} (header : Header)
      → read_header S db h n ≡ some header
      → Up S db k header.parent_hash (n - 1) a
      → Up S db (suc k) h n a

-- A hash stands for one number.
pub record IsOneNumber (S : Storage) (db : S.Db) : Type 0 where
  pub numbered :
      (h : Hash) (n m : ℕ) {a b : Header}
      → read_header S db h n ≡ some a
      → read_header S db h m ≡ some b
      → n ≡ m

canonical-Up :
    {S : Storage} {g : ℕ} {db : S.Db} {head : Header} (canonical : IsCanonical S g db head)
    (k n : ℕ)
    → g + k ≤ n
    → n ≤ head.number
    → Up S db k (S.read_canonical_hash db n) n (S.read_canonical_hash db (n - k))
canonical-Up {S} {g} {db} canonical zero n low high =
    subst (λ m. Up S db 0 (S.read_canonical_hash db n) n (S.read_canonical_hash db m)) (omega arith)
      here
canonical-Up {S} {g} {db} canonical (suc k) n low high =
    let link = canonical.linked n (omega arith) high in
    let rest = canonical-Up canonical k (n - 1) (omega arith) (omega arith) in
    let same : n - 1 - k ≡ n - suc k = omega arith in
    let back = sym (link.parent (omega arith)) in
    up link.header link.stored (
      subst (λ m. Up S db k link.header.parent_hash (n - 1) (S.read_canonical_hash db m)) same
        (subst (λ h. Up S db k h (n - 1) (S.read_canonical_hash db (n - 1 - k))) back rest))

module _ {S : Storage} {H : Lru Hash Header} {N : Lru Hash ℕ} (lru : IsLru H) {g : ℕ} where
  -- What is found under a stored hash is what is stored.
  found-same :
      (hc : HeaderChain S H N) (h : Hash) (n : ℕ) {header p : Header}
      → IsSound S g hc.chain_db
      → IsCoherent hc
      → IsOneNumber S hc.chain_db
      → read_header S hc.chain_db h n ≡ some header
      → (get_header hc h n).0 ≡ some p
      → p ≡ header
  found-same hc h n {header} {p} sound coherent one stored found =
      let kept = get_header-stored lru hc sound coherent h n found in
      let at = one.numbered h n p.number stored kept in
      let kept' = subst (λ m. read_header S hc.chain_db h m ≡ some p) (sym at) kept in
      ground (arith, kept', stored)

  ancestor_loop-Up :
      (k : ℕ) (hc : HeaderChain S H N) (h : Hash) (n max : ℕ) {header head : Header}
      → IsSound S g hc.chain_db
      → IsClosed S g hc.chain_db
      → IsOneNumber S hc.chain_db
      → IsCanonical S g hc.chain_db head
      → IsCoherent hc
      → read_header S hc.chain_db h n ≡ some header
      → g + k ≤ n
      → k ≤ max
      → Up S hc.chain_db k h n (ancestor_loop k hc h n max).0.hash
        × ((ancestor_loop k hc h n max).0.number ≡ n - k)
  unfolding ancestor_loop
  ancestor_loop-Up zero hc h n max sound closed one canonical coherent stored low enough =
      (here, omega arith)
  ancestor_loop-Up (suc k) hc h n max {header} {head} sound closed one canonical coherent stored low
        enough =
      let r = (ancestor_loop (suc k) hc h n max).0 in
      let hc' = (get_header hc h n).1 in
      let same = chain_db-get_header hc h n in
      let (ge, word) = sound.bounded h n stored in
      elim (Bool-cases (S.read_canonical_hash hc.chain_db n == h)) [
        | inl on ↦
            let at : S.read_canonical_hash hc.chain_db n ≡ h = ground arith in
            let high : n ≤ head.number = elim (dec_le n head.number) [
              | yes le ↦ le
              | no gt ↦
                  absurd ((sound.keyed h n stored).2 (sym at ∙ canonical.above n (omega arith)))
            ] in
            let path =
              subst
                (λ x. Up S hc.chain_db (suc k) x n (S.read_canonical_hash hc.chain_db (n - suc k)))
                at (canonical-Up canonical (suc k) n low high) in
            let hash : r.hash ≡ S.read_canonical_hash hc.chain_db (sub64 n (suc k)) =
              ground arith in
            let number : r.number ≡ sub64 n (suc k) = ground arith in
            let below : sub64 n (suc k) ≡ n - suc k = omega (arith, word) in
            (
              subst (λ x. Up S hc.chain_db (suc k) h n x)
                  (sym (hash ∙ ap (λ m. S.read_canonical_hash hc.chain_db m) below)) path,
              number ∙ below,
            )
        | inr off ↦ elim (Option-cases (get_header hc h n).0) [
          | inl missing ↦ absurd (get_header_complete lru hc sound coherent h n stored missing)
          | inr (p, found) ↦
              let p-header = found-same hc h n sound coherent one stored found in
              let one_less : sub64 n 1 ≡ n - 1 = omega (arith, word) in
              elim (Option-cases (read_header S hc.chain_db header.parent_hash (n - 1))) [
                | inl lost ↦ absurd (closed.parents h n stored (omega arith) lost)
                | inr (q, kept) ↦
                    let (path, number) =
                      ancestor_loop-Up k hc' header.parent_hash (n - 1) (max - 1) {header = q}
                        {head = head} (rw same sound) (rw same closed) (rw same one)
                        (rw same canonical) (get_header-IsCoherent lru hc sound coherent h n)
                        (rw same kept) (omega arith) (omega arith) in
                    let step : r ≡ (ancestor_loop k hc' header.parent_hash (n - 1) (max - 1)).0 =
                      ground (arith, p-header, one_less, found) in
                    (
                      up header stored (
                          subst (λ x. Up S hc.chain_db k header.parent_hash (n - 1) x)
                            (sym (ap (λ x. x.hash) step)) (rw same at path)),
                      ap (λ x. x.number) step ∙ (number ∙ omega arith),
                    )
              ]
        ]
      ]

  -- `GetAncestor` of a stored header in a well-formed chain answers with the hash that so many
  -- parent links lead to, and with its number, if the ancestor is not below the genesis block, at
  -- least as many headers may be checked off the canonical chain, a hash stands for one number,
  -- and every stored header has its parent stored down to the genesis block, the only header with
  -- its number.
  pub get_ancestor-Up :
      (hc : HeaderChain S H N) (h : Hash) (n k max : ℕ) {header : Header}
      → IsWellFormed g hc
      → IsClosed S g hc.chain_db
      → IsOneNumber S hc.chain_db
      → read_header S hc.chain_db h n ≡ some header
      → g + k ≤ n
      → k ≤ max
      → Up S hc.chain_db k h n (get_ancestor hc h n k max).0.hash
        × ((get_ancestor hc h n k max).0.number ≡ n - k)
  unfolding get_ancestor
  get_ancestor-Up hc h n k max {header} wf closed one stored low enough =
      let r = (get_ancestor hc h n k max).0 in
      let (ge, word) = wf.sound.bounded h n stored in
      elim (Bool-cases (k == 1)) [
        | inl single ↦ elim (Option-cases (get_header hc h n).0) [
          | inl missing ↦
              absurd (get_header_complete lru hc wf.sound wf.coherent h n stored missing)
          | inr (p, found) ↦
              let p-header = found-same hc h n wf.sound wf.coherent one stored found in
              let k-one : k ≡ 1 = ground arith in
              let hash : r.hash ≡ header.parent_hash = ground (arith, p-header, found) in
              let number : r.number ≡ sub64 n 1 = ground (arith, found) in
              (
                subst (λ j. Up S hc.chain_db j h n r.hash) (sym k-one)
                    (up header stored (
                      subst (λ x. Up S hc.chain_db 0 header.parent_hash (n - 1) x) (sym hash)
                        here)),
                number ∙ omega (arith, word, k-one),
              )
        ]
        | inr several ↦
            let (path, number) =
              ancestor_loop-Up k hc h n max wf.sound closed one wf.canonical wf.coherent stored low
                enough in
            let same : r ≡ (ancestor_loop k hc h n max).0 = ground arith in
            (
              subst (λ x. Up S hc.chain_db k h n x) (sym (ap (λ x. x.hash) same)) path,
              ap (λ x. x.number) same ∙ number,
            )
      ]
