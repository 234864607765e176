-- ===== src/Core/Evm/BlockHash.antt =====
-- core/evm.go: the block hashes that `GetHashFn` answers with.
use mive.Base.{
  ℕ, zero, suc, ◌+◌, ◌-◌, ◌≤◌, ◌<◌, ◌≡◌, ◌≢◌, refl, sym, ◌∙◌, Option, none, some, List, [], ◌∷◌,
  ◌++◌, arith, get_elem?, length, last_of, leb, if◌then◌else◌, uint64, sub64, u64_mod, Bool-cases,
  Option-cases, inl, inr, ◌==◌,
}
use native.Mathlib.Nat.{add-zero, zero-add}
use mathlib.Core.Path.{subst}
use mathlib.Core.Option
use native.Mathlib.Decide.{dec_le}
use mive.Core.Types.{Hash, zero_hash, Header, number_u64}
use mive.Core.Evm.{Reference, hash_loop, get_hash}

module _ (get_header : Hash → ℕ → Option Header) (ref : Reference) where
  -- The hash `d` steps above the parent of the reference block, by the parent links alone.
  unfoldable pub hash_at : ℕ → Option Hash
  hash_at zero = some ref.parent_hash
  hash_at (suc d) = elim (hash_at d) [
    | none ↦ none
    | some h ↦ Option.map (λ header. header.parent_hash) (get_header h (ref.number - 1 - d))
  ]

  hash_at-none : (d k : ℕ) → hash_at d ≡ none → d ≤ k → hash_at k ≡ none
  unfolding hash_at
  hash_at-none d zero e le = let z : d ≡ 0 = omega arith in rw z at e
  hash_at-none d (suc k) e le = elim (dec_le d k) [
    | yes below ↦ ground (arith, hash_at-none d k e below)
    | no above ↦ let z : d ≡ suc k = omega arith in rw z at e
  ]

  -- A cache that holds the hashes above the reference block in order.
  abbrev pub Agrees : ℕ → List Hash → Type 0
  Agrees start cache = (i : ℕ) → i < length cache → get_elem? cache i ≡ hash_at (start + i)

  -- What the function stands for: the hash of block `n`, or the zero hash if it is not known.
  abbrev pub block_hash : ℕ → Hash
  block_hash n =
      if leb ref.number n then zero_hash else Option.get_or (hash_at (ref.number - n - 1)) zero_hash

  -- A header that is found on the way along the parent links has the number that it is asked under.
  pub record IsNumbered : Type 0 where
    pub numbered :
        (d : ℕ) {h : Hash} {header : Header}
        → hash_at d ≡ some h
        → get_header h (ref.number - 1 - d) ≡ some header
        → header.number ≡ ref.number - 1 - d
    pub word : ref.number < u64_mod

  Agrees-cons :
      (d : ℕ) (h : Hash) (more : List Hash)
      → hash_at d ≡ some h
      → Agrees (suc d) more
      → Agrees d (h ∷ more)
  Agrees-cons d h more e rest zero lt = rw add-zero (sym e)
  Agrees-cons d h more e rest (suc i) lt =
      let shift : d + suc i ≡ suc d + i = omega arith in rw shift (rest i (omega arith))

  -- What the loop owes its caller when it starts from depth `d`.
  abbrev Answers : ℕ → ℕ → Option Hash × List Hash → Type 0
  Answers n d r = (r.0 ≡ some (block_hash n)) × Agrees (suc d) r.1

  module _ (ok : IsNumbered) where
    hash_loop-Answers :
        (fuel n d : ℕ) (h : Hash)
        → hash_at d ≡ some h
        → n + d + 1 < ref.number
        → ref.number ≤ fuel + n + d + 1
        → Answers n d (hash_loop fuel get_header n h (ref.number - 1 - d))
    hash_loop-Answers zero n d h e lt enough = absurd (omega arith)
    hash_loop-Answers (suc fuel) n d h e lt enough =
        let k = ref.number - 1 - d in
        elim (Option-cases (get_header h k)) [
          | inl missing ↦
              let gone =
                hash_at-none (suc d) (ref.number - n - 1) (unfold hash_at in ground arith)
                  (omega arith) in
              let r : hash_loop (suc fuel) get_header n h k ≡ (some zero_hash, []) =
                unfold hash_loop in ground arith in
              subst (Answers n d) (sym r) (ground (arith, gone), λ i lt. absurd (omega arith))
          | inr (header, found) ↦
              let step : hash_at (suc d) ≡ some header.parent_hash =
                unfold hash_at in ground arith in
              let next : sub64 (number_u64 header) 1 ≡ ref.number - 1 - suc d =
                omega (arith, ok.numbered d e found, ok.word) in
              let more = hash_loop fuel get_header n header.parent_hash (ref.number - 1 - suc d) in
              elim (Bool-cases (n == ref.number - 1 - suc d)) [
                | inl last ↦
                    let r : hash_loop (suc fuel) get_header n h k
                        ≡ (some header.parent_hash, header.parent_hash ∷ []) =
                      unfold hash_loop in ground (arith, next) in
                    let here : ref.number - n - 1 ≡ suc d = ground arith in
                    subst (Answers n d) (sym r) (
                      ground (arith, here, step),
                      Agrees-cons (suc d) header.parent_hash [] step (λ i lt. absurd (omega arith)),
                    )
                | inr further ↦
                    let r : hash_loop (suc fuel) get_header n h k
                        ≡ (more.0, header.parent_hash ∷ more.1) =
                      unfold hash_loop in ground (arith, next) in
                    let (answer, path) =
                      hash_loop-Answers fuel n (suc d) header.parent_hash step (ground arith)
                        (omega arith) in
                    subst (Answers n d) (sym r)
                      (answer, Agrees-cons (suc d) header.parent_hash more.1 step path)
              ]
        ]

  Agrees-append :
      (d : ℕ) (a b : List Hash) → Agrees d a → Agrees (d + length a) b → Agrees d (a ++ b)
  Agrees-append d [] b p q i lt = rw add-zero at q i lt
  Agrees-append d (h ∷ a) b p q zero lt = p zero (omega arith)
  Agrees-append d (h ∷ a) b p q (suc i) lt =
      let shift : d + suc i ≡ suc d + i = omega arith in
      let grow : d + length (h ∷ a) ≡ suc d + length a = omega arith in
      rw shift (
        Agrees-append (suc d) a b
          (λ j l. let e : suc d + j ≡ d + suc j = omega arith in rw e (p (suc j) (omega arith)))
          (subst (λ k. Agrees k b) grow q) i (omega arith))

get_elem?-ne-none : (xs : List Hash) (i : ℕ) → i < length xs → get_elem? xs i ≢ none
get_elem?-ne-none [] i lt e = omega arith
get_elem?-ne-none (x ∷ xs) zero lt e = cc
get_elem?-ne-none (x ∷ xs) (suc i) lt e = get_elem?-ne-none xs i (omega arith) e

get_elem?-last : (x : Hash) (xs : List Hash) → get_elem? (x ∷ xs) (length xs) ≡ some (last_of x xs)
get_elem?-last x [] = refl
get_elem?-last x (y ∷ ys) = get_elem?-last y ys

module _ (get_header : Hash → ℕ → Option Header) (ref : Reference)
    (ok : IsNumbered get_header ref) where
  -- The call once the cache is made.
  get_hash-made :
      (fuel : ℕ) (x : Hash) (xs : List Hash) (n : ℕ)
      → Agrees get_header ref 0 (x ∷ xs)
      → ref.number ≤ fuel
      → let r = get_hash fuel get_header ref (x ∷ xs) n in
        (r.0 ≡ some (block_hash get_header ref n)) × Agrees get_header ref 0 r.1
  get_hash-made fuel x xs n path enough =
      let made = x ∷ xs in
      let idx = ref.number - n - 1 in
      let P = λ (r : Option Hash × List Hash).
        (r.0 ≡ some (block_hash get_header ref n)) × Agrees get_header ref 0 r.1 in
      elim (dec_le ref.number n) [
        | yes above ↦
            let r : get_hash fuel get_header ref made n ≡ (some zero_hash, made) =
              unfold get_hash in ground (arith, ok.word) in
            subst P (sym r) (ground arith, path)
        | no below ↦ elim (dec_le (length made) idx) [
          | no cached ↦
              let path_at = rw zero-add at (path idx (omega arith)) in
              let r : get_hash fuel get_header ref made n ≡ (get_elem? made idx, made) =
                unfold get_hash in ground (arith, ok.word) in
              subst P (sym r)
                (ground (arith, get_elem?-ne-none made idx (omega arith), path_at), path)
          | yes beyond ↦
              let d = length xs in
              let loop = hash_loop fuel get_header n (last_of x xs) (ref.number - 1 - d) in
              let r : get_hash fuel get_header ref made n ≡ (loop.0, made ++ loop.1) =
                let e : sub64 (uint64 ref.number) (length made) ≡ ref.number - 1 - d =
                  omega (arith, ok.word) in
                unfold get_hash in ground (arith, e, ok.word) in
              let start = (rw zero-add at (sym (path d (omega arith)))) ∙ get_elem?-last x xs in
              let grow : suc d ≡ 0 + length made = omega arith in
              let (answer, more) =
                hash_loop-Answers get_header ref ok fuel n d (last_of x xs) start (omega arith)
                  (omega arith) in
              subst P (sym r) (
                answer,
                Agrees-append get_header ref 0 made loop.1 path
                    (subst (λ k. Agrees get_header ref k loop.1) grow more),
              )
        ]
      ]

  -- `GetHashFn`, where each header that is found along the parent links has the number it is asked under,
  -- and the number of the reference block is a 64-bit word: over a cache that is empty or holds the hashes
  -- along those links in order, and with the number of the reference block as fuel, a call answers with the
  -- hash of the block that the parent links give, or with the zero hash where they give none, and leaves a
  -- cache of the same kind.
  pub get_hash-block_hash :
      (fuel : ℕ) (cache : List Hash) (n : ℕ)
      → Agrees get_header ref 0 cache
      → ref.number ≤ fuel
      → let r = get_hash fuel get_header ref cache n in
        (r.0 ≡ some (block_hash get_header ref n)) × Agrees get_header ref 0 r.1
  get_hash-block_hash fuel (x ∷ xs) n path enough = get_hash-made fuel x xs n path enough
  get_hash-block_hash fuel [] n path enough =
      let P = λ (r : Option Hash × List Hash).
        (r.0 ≡ some (block_hash get_header ref n)) × Agrees get_header ref 0 r.1 in
      elim (dec_le ref.number n) [
        | yes above ↦
            let r : get_hash fuel get_header ref [] n ≡ (some zero_hash, []) =
              unfold get_hash in ground (arith, ok.word) in
            subst P (sym r) (ground arith, path)
        | no below ↦
            let first : List Hash = ref.parent_hash ∷ [] in
            let r : get_hash fuel get_header ref [] n ≡ get_hash fuel get_header ref first n =
              unfold get_hash in ground (arith, ok.word) in
            subst P (sym r) (
              get_hash-made fuel ref.parent_hash [] n
                (Agrees-cons get_header ref 0 ref.parent_hash [] (unfold hash_at in refl)
                  (λ i lt. absurd (omega arith)))
                enough)
      ]
