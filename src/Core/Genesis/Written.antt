-- ===== src/Core/Genesis/Written.antt =====
-- core/genesis.go: what the database says after writes that are made one at a time.
use mive.Base.{
  ℕ, Bytes, ◌≡◌, refl, ◌∙◌, ap, sym, some, Option, List, [], ◌∷◌, Option-cases, inl, inr, arith,
}
use mive.Core.Types.{Hash}
use mive.Core.Rawdb.{
  Storage, Write, write_canonical_hash, write_header_number, put_header, write_head_header_hash,
  write_head_block_hash, write_head_fast_block_hash, put_config,
}
use mive.Core.Rawdb.Effects.{
  IsStorage, canonical_after, header_after, number_after, head_header_after, head_block_after,
  head_fast_block_after, config_after,
}
use mive.Core.Genesis.{put_each, ok}

-- A read whose value after a batch is computed from its value before, one write after the other.
module _ {V : Type 0} (S : Storage) (read : S.Db → V) (after : List Write → V → V)
    (committed : (ws : List Write) (db db' : S.Db)
      → S.commit ws db ≡ some db'
      → read db' ≡ after ws (read db))
    (nothing : (v : V) → after [] v ≡ v)
    (step : (w : Write) (ws : List Write) (v : V)
      → after ws (after (w ∷ []) v) ≡ after (w ∷ ws) v) where
  read-put_each :
      (ws : List Write) (db : S.Db) {db' : S.Db}
      → put_each S ws db ≡ ok db'
      → read db' ≡ after ws (read db)
  unfolding put_each
  read-put_each [] db {db' = db'} done =
      let e : db' ≡ db = cc in ap read e ∙ sym (nothing (read db))
  read-put_each (w ∷ ws) db {db' = db'} done = elim (Option-cases (S.commit (w ∷ []) db)) [
    | inl broken ↦ absurd (ground (arith, broken))
    | inr (d, wrote) ↦
        read-put_each ws d {db' = db'} (ground (arith, wrote))
        ∙ ap (after ws) (committed (w ∷ []) db d wrote)
        ∙ step w ws (read db)
  ]

canonical_after-cons :
    (n : ℕ) (w : Write) (ws : List Write) (v : Hash)
    → canonical_after ws n (canonical_after (w ∷ []) n v) ≡ canonical_after (w ∷ ws) n v
unfolding canonical_after
canonical_after-cons n (write_canonical_hash h m) ws v = refl
canonical_after-cons n w ws v = refl

header_after-cons :
    (h : Hash) (n : ℕ) (w : Write) (ws : List Write) (v : Bytes)
    → header_after ws h n (header_after (w ∷ []) h n v) ≡ header_after (w ∷ ws) h n v
unfolding header_after
header_after-cons h n (put_header m k rlp) ws v = refl
header_after-cons h n w ws v = refl

number_after-cons :
    (h : Hash) (w : Write) (ws : List Write) (v : Option ℕ)
    → number_after ws h (number_after (w ∷ []) h v) ≡ number_after (w ∷ ws) h v
unfolding number_after
number_after-cons h (write_header_number k n) ws v = refl
number_after-cons h w ws v = refl

head_header_after-cons :
    (w : Write) (ws : List Write) (v : Hash)
    → head_header_after ws (head_header_after (w ∷ []) v) ≡ head_header_after (w ∷ ws) v
unfolding head_header_after
head_header_after-cons (write_head_header_hash k) ws v = refl
head_header_after-cons w ws v = refl

head_block_after-cons :
    (w : Write) (ws : List Write) (v : Hash)
    → head_block_after ws (head_block_after (w ∷ []) v) ≡ head_block_after (w ∷ ws) v
unfolding head_block_after
head_block_after-cons (write_head_block_hash k) ws v = refl
head_block_after-cons w ws v = refl

head_fast_block_after-cons :
    (w : Write) (ws : List Write) (v : Hash)
    → head_fast_block_after ws (head_fast_block_after (w ∷ []) v) ≡ head_fast_block_after (w ∷ ws) v
unfolding head_fast_block_after
head_fast_block_after-cons (write_head_fast_block_hash k) ws v = refl
head_fast_block_after-cons w ws v = refl

config_after-cons :
    (h : Hash) (w : Write) (ws : List Write) (v : Bytes)
    → config_after ws h (config_after (w ∷ []) h v) ≡ config_after (w ∷ ws) h v
unfolding config_after
config_after-cons h (put_config k json) ws v = refl
config_after-cons h w ws v = refl

-- Each read after such writes.
module _ {S : Storage} (laws : IsStorage S) (ws : List Write) (db : S.Db) {db' : S.Db}
    (done : put_each S ws db ≡ ok db') where
  pub read_canonical_hash-put_each :
      (n : ℕ) → S.read_canonical_hash db' n ≡ canonical_after ws n (S.read_canonical_hash db n)
  unfolding canonical_after
  read_canonical_hash-put_each n =
      read-put_each S (λ d. S.read_canonical_hash d n) (λ vs v. canonical_after vs n v)
        (λ ws d d' e. laws.read_canonical_hash-commit ws d n e) (λ v. refl) (canonical_after-cons n)
        ws db done

  pub read_header_rlp-put_each :
      (h : Hash) (n : ℕ)
      → S.read_header_rlp db' h n ≡ header_after ws h n (S.read_header_rlp db h n)
  unfolding header_after
  read_header_rlp-put_each h n =
      read-put_each S (λ d. S.read_header_rlp d h n) (λ vs v. header_after vs h n v)
        (λ ws d d' e. laws.read_header_rlp-commit ws d h n e) (λ v. refl) (header_after-cons h n) ws
        db done

  pub read_header_number-put_each :
      (h : Hash) → S.read_header_number db' h ≡ number_after ws h (S.read_header_number db h)
  unfolding number_after
  read_header_number-put_each h =
      read-put_each S (λ d. S.read_header_number d h) (λ vs v. number_after vs h v)
        (λ ws d d' e. laws.read_header_number-commit ws d h e) (λ v. refl) (number_after-cons h) ws
        db done

  pub read_head_header_hash-put_each :
      S.read_head_header_hash db' ≡ head_header_after ws (S.read_head_header_hash db)
  unfolding head_header_after
  read_head_header_hash-put_each =
      read-put_each S (λ d. S.read_head_header_hash d) (λ vs v. head_header_after vs v)
        (λ ws d d' e. laws.read_head_header_hash-commit ws d e) (λ v. refl) (head_header_after-cons)
        ws db done

  pub read_head_block_hash-put_each :
      S.read_head_block_hash db' ≡ head_block_after ws (S.read_head_block_hash db)
  unfolding head_block_after
  read_head_block_hash-put_each =
      read-put_each S (λ d. S.read_head_block_hash d) (λ vs v. head_block_after vs v)
        (λ ws d d' e. laws.read_head_block_hash-commit ws d e) (λ v. refl) (head_block_after-cons)
        ws db done

  pub read_head_fast_block_hash-put_each :
      S.read_head_fast_block_hash db' ≡ head_fast_block_after ws (S.read_head_fast_block_hash db)
  unfolding head_fast_block_after
  read_head_fast_block_hash-put_each =
      read-put_each S (λ d. S.read_head_fast_block_hash d) (λ vs v. head_fast_block_after vs v)
        (λ ws d d' e. laws.read_head_fast_block_hash-commit ws d e) (λ v. refl)
        (head_fast_block_after-cons) ws db done

  pub read_config-put_each :
      (h : Hash) → S.read_config db' h ≡ config_after ws h (S.read_config db h)
  unfolding config_after
  read_config-put_each h =
      read-put_each S (λ d. S.read_config d h) (λ vs v. config_after vs h v)
        (λ ws d d' e. laws.read_config-commit ws d h e) (λ v. refl) (config_after-cons h) ws db done
