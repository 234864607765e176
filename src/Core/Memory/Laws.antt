-- ===== src/Core/Memory/Laws.antt =====
-- The database and the cache in memory obey the laws.
use mathlib.Core.Path.{subst}
use mive.Base.{ℕ, ◌≡◌, refl, some, List, [], ◌∷◌, arith}
use mive.Core.Types.{Hash}
use mive.Core.Lru.{IsLru}
use mive.Core.Rawdb.{
  Write, write_canonical_hash, write_head_header_hash, write_head_block_hash,
  write_head_fast_block_hash, write_finalized_block_hash, write_header_number, put_header,
  put_config,
}
use mive.Core.Rawdb.Effects.{
  IsStorage, canonical_after, header_after, number_after, head_header_after, head_block_after,
  head_fast_block_after, finalized_block_after, config_after,
}
use mive.Core.Memory.{Memory, apply, apply_all, memory, memory_lru}

canonical-apply_all :
    (ws : List Write) (db : Memory) (n : ℕ)
    → (apply_all ws db).canonical n ≡ canonical_after ws n (db.canonical n)
unfolding apply apply_all canonical_after
canonical-apply_all [] db n = refl
canonical-apply_all (write_canonical_hash h m ∷ ws) db n = canonical-apply_all ws _ n
canonical-apply_all (_ ∷ ws) db n = canonical-apply_all ws _ n

headers-apply_all :
    (ws : List Write) (db : Memory) (h : Hash) (n : ℕ)
    → (apply_all ws db).headers h n ≡ header_after ws h n (db.headers h n)
unfolding apply apply_all header_after
headers-apply_all [] db h n = refl
headers-apply_all (put_header m k rlp ∷ ws) db h n = headers-apply_all ws _ h n
headers-apply_all (_ ∷ ws) db h n = headers-apply_all ws _ h n

numbers-apply_all :
    (ws : List Write) (db : Memory) (h : Hash)
    → (apply_all ws db).numbers h ≡ number_after ws h (db.numbers h)
unfolding apply apply_all number_after
numbers-apply_all [] db h = refl
numbers-apply_all (write_header_number k m ∷ ws) db h = numbers-apply_all ws _ h
numbers-apply_all (_ ∷ ws) db h = numbers-apply_all ws _ h

head_header-apply_all :
    (ws : List Write) (db : Memory)
    → (apply_all ws db).head_header ≡ head_header_after ws db.head_header
unfolding apply apply_all head_header_after
head_header-apply_all [] db = refl
head_header-apply_all (write_head_header_hash h ∷ ws) db = head_header-apply_all ws _
head_header-apply_all (_ ∷ ws) db = head_header-apply_all ws _

head_block-apply_all :
    (ws : List Write) (db : Memory)
    → (apply_all ws db).head_block ≡ head_block_after ws db.head_block
unfolding apply apply_all head_block_after
head_block-apply_all [] db = refl
head_block-apply_all (write_head_block_hash h ∷ ws) db = head_block-apply_all ws _
head_block-apply_all (_ ∷ ws) db = head_block-apply_all ws _

head_fast_block-apply_all :
    (ws : List Write) (db : Memory)
    → (apply_all ws db).head_fast_block ≡ head_fast_block_after ws db.head_fast_block
unfolding apply apply_all head_fast_block_after
head_fast_block-apply_all [] db = refl
head_fast_block-apply_all (write_head_fast_block_hash h ∷ ws) db = head_fast_block-apply_all ws _
head_fast_block-apply_all (_ ∷ ws) db = head_fast_block-apply_all ws _

finalized_block-apply_all :
    (ws : List Write) (db : Memory)
    → (apply_all ws db).finalized_block ≡ finalized_block_after ws db.finalized_block
unfolding apply apply_all finalized_block_after
finalized_block-apply_all [] db = refl
finalized_block-apply_all (write_finalized_block_hash h ∷ ws) db = finalized_block-apply_all ws _
finalized_block-apply_all (_ ∷ ws) db = finalized_block-apply_all ws _

configs-apply_all :
    (ws : List Write) (db : Memory) (h : Hash)
    → (apply_all ws db).configs h ≡ config_after ws h (db.configs h)
unfolding apply apply_all config_after
configs-apply_all [] db h = refl
configs-apply_all (put_config k json ∷ ws) db h = configs-apply_all ws _ h
configs-apply_all (_ ∷ ws) db h = configs-apply_all ws _ h

committed : {db db' : Memory} → some db ≡ some db' → db ≡ db'
committed e = cc

pub memory-IsStorage : IsStorage memory
memory-IsStorage = record {
  read_canonical_hash-commit = λ ws db n done.
      subst (λ (d : Memory). d.canonical n ≡ canonical_after ws n (db.canonical n)) (committed done)
        (canonical-apply_all ws db n);
  read_header_rlp-commit = λ ws db h n done.
      subst (λ (d : Memory). d.headers h n ≡ header_after ws h n (db.headers h n)) (committed done)
        (headers-apply_all ws db h n);
  read_header_number-commit = λ ws db h done.
      subst (λ (d : Memory). d.numbers h ≡ number_after ws h (db.numbers h)) (committed done)
        (numbers-apply_all ws db h);
  read_head_header_hash-commit = λ ws db done.
      subst (λ (d : Memory). d.head_header ≡ head_header_after ws db.head_header) (committed done)
        (head_header-apply_all ws db);
  read_head_block_hash-commit = λ ws db done.
      subst (λ (d : Memory). d.head_block ≡ head_block_after ws db.head_block) (committed done)
        (head_block-apply_all ws db);
  read_head_fast_block_hash-commit = λ ws db done.
      subst (λ (d : Memory). d.head_fast_block ≡ head_fast_block_after ws db.head_fast_block)
        (committed done) (head_fast_block-apply_all ws db);
  read_finalized_block_hash-commit = λ ws db done.
      subst (λ (d : Memory). d.finalized_block ≡ finalized_block_after ws db.finalized_block)
        (committed done) (finalized_block-apply_all ws db);
  read_config-commit = λ ws db h done.
      subst (λ (d : Memory). d.configs h ≡ config_after ws h (db.configs h)) (committed done)
        (configs-apply_all ws db h);
  has_header-rlp = λ db h n. refl;
  rlp_decode-encode = λ header. refl;
  rlp_encode-ne-nil = λ header. refl;
}

pub memory_lru-IsLru : {V : Type 0} → IsLru (memory_lru V)
memory_lru-IsLru = record {
  get-entry = λ c k. refl;
  entry-get = λ c k j. refl;
  entry-add = λ c k v j e. ground arith;
  entry-add_self = λ c k v. ground arith;
  contains-entry = λ c k. refl;
  entry-purge = λ c k. refl;
}
