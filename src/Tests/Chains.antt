-- ===== src/Tests/Chains.antt =====
-- A chain with a fork, in memory: core/headerchain.go on concrete headers.
use mive.Base.{
  ℕ, zero, suc, ◌≤◌, ◌≡◌, ◌≢◌, refl, true, false, ◌&&◌, ◌==◌, none, some, List, [], ◌∷◌,
  if◌then◌else◌, arith,
}
use mive.Core.Types.{Hash, Header}
use mive.Core.Rawdb.{Write}
use mive.Core.Rawdb.Accessors.{read_header}
use mive.Core.Memory.{Memory, memory, memory_lru, empty_memory, encode, apply, apply_all}
use mive.Core.Memory.Laws.{memory-IsStorage, memory_lru-IsLru}
use mive.Core.HeaderChain.{HeaderChain, get_header, has_header, aborted}
use mive.Core.HeaderChain.Lookup.{get_header-stored}
use mive.Core.HeaderChain.Import.{
  write_headers, record_headers, insert_header_chain, write_headers_and_set_head,
}
use mive.Core.HeaderChain.Import.Aborted.{
  write_headers-SameChain, write_headers-forgotten, insert_header_chain-failed,
}
use mive.Core.HeaderChain.Reorg.Outcome.{SameChain, reorg-IsWellFormed, reorg-SameChain}
use mive.Core.HeaderChain.Reorg.Extend.{IsBranch}
use mive.Core.HeaderChain.WellFormed.{IsSound, LinkedAt, IsWellFormed}
use mive.Core.HeaderChain.Reorg.{reorg, clear_above, overwrite_stale}
use mive.Core.HeaderChain.Reorg.Progress.{IsClosed, reorg-none}

abbrev pub header_of : Hash → Hash → ℕ → Header
header_of parent hash number = record {
  parent_hash = parent;
  hash = hash;
  number = number;
  time = number;
  root = 0;
  receipt_hash = 0;
  bloom = [];
  gas_used = 0;
}

-- The genesis block, a block on it, and two blocks of a branch beside that.
abbrev pub genesis : Header
genesis = header_of 99 1 0

abbrev pub old_1 : Header
old_1 = header_of 1 2 1

abbrev pub new_1 : Header
new_1 = header_of 1 3 1

abbrev pub new_2 : Header
new_2 = header_of 3 4 2

abbrev pub forked : Memory
forked = record empty_memory {
  canonical = λ n. if n == 0 then 1 else if n == 1 then 2 else 0;
  headers = λ h n.
      if h == 1 && n == 0
      then encode genesis
      else if h == 2 && n == 1
      then encode old_1
      else if h == 3 && n == 1
      then encode new_1
      else if h == 4 && n == 2
      then encode new_2
      else [];
  head_header = 2;
}

abbrev pub chain : HeaderChain memory (memory_lru Header) (memory_lru ℕ)
chain = record {
  chain_db = forked;
  genesis_header = genesis;
  current_header = old_1;
  header_cache = [];
  number_cache = [];
}

pub forked-IsSound : IsSound memory 0 forked
unfolding read_header
forked-IsSound = record {
  keyed = λ h n e. ground arith;
  bounded = λ h n e. ground arith;
  parent_number = λ h n m e f. ground arith;
}

pub forked-IsClosed : IsClosed memory 0 forked
unfolding read_header
forked-IsClosed = record { parents = λ h n e lt f. ground arith; unique = λ h e. ground arith }

linked-at : (n : ℕ) → n ≤ 1 → LinkedAt memory 0 forked (forked.canonical) n
unfolding read_header
linked-at zero le = record { header = genesis; stored = refl; parent = λ lt. absurd (omega arith) }
linked-at (suc zero) le = record { header = old_1; stored = refl; parent = λ lt. refl }
linked-at (suc (suc n)) le = absurd (omega arith)

pub chain-IsWellFormed : IsWellFormed 0 chain
chain-IsWellFormed = record {
  sound = forked-IsSound;
  coherent = record { cached = λ h e. ground arith };
  canonical = record {
    floor = omega arith;
    top = refl;
    above = λ n lt. ground arith;
    linked = λ n ge le. linked-at n le;
  };
}

forked-IsBranch : IsBranch memory forked new_1 (new_2 ∷ [])
unfolding read_header
forked-IsBranch = (refl, refl, refl)

memory-writes : (ws : List Write) (db : Memory) → memory.commit ws db ≢ none
memory-writes ws db e = ground arith

switches : (reorg 6 chain (new_1 ∷ new_2 ∷ [])).1 ≡ none
switches =
    reorg-none memory_lru-IsLru memory-IsStorage 5 chain new_1 (new_2 ∷ []) chain-IsWellFormed
      forked-IsBranch forked-IsClosed memory-writes (omega arith) (omega arith)

reorg-none_example : (reorg 3 chain (new_1 ∷ new_2 ∷ [])).1 ≡ none
reorg-none_example =
    reorg-none memory_lru-IsLru memory-IsStorage 2 chain new_1 (new_2 ∷ []) chain-IsWellFormed
      forked-IsBranch forked-IsClosed memory-writes (omega arith) (omega arith)

reorg-IsWellFormed_example :
    IsWellFormed 0 (reorg 6 chain (new_1 ∷ new_2 ∷ [])).0
    × ((reorg 6 chain (new_1 ∷ new_2 ∷ [])).0.current_header ≡ new_2)
reorg-IsWellFormed_example =
    reorg-IsWellFormed memory_lru-IsLru memory-IsStorage 6 chain new_1 (new_2 ∷ [])
      chain-IsWellFormed forked-IsBranch switches

found : (get_header chain 3 1).0 ≡ some new_1
unfolding get_header read_header
found = refl

short : (reorg 1 chain (new_1 ∷ new_2 ∷ [])).1 ≢ none
unfolding reorg clear_above overwrite_stale get_header read_header
short e = cc

interrupted : (write_headers true chain (header_of 2 5 2 ∷ [])).2 ≢ none
unfolding write_headers get_header read_header record_headers
interrupted e = cc

is_aborted : (write_headers true chain (header_of 2 5 2 ∷ [])).2 ≡ some aborted
unfolding write_headers get_header read_header record_headers
is_aborted = refl

not_inserted : (insert_header_chain 5 false true chain (header_of 2 5 2 ∷ [])).2 ≢ none
unfolding insert_header_chain write_headers_and_set_head write_headers get_header read_header
    record_headers
not_inserted e = cc

get_header-stored_example : read_header memory forked 3 1 ≡ some new_1
get_header-stored_example =
    get_header-stored memory_lru-IsLru chain forked-IsSound chain-IsWellFormed.coherent 3 1
      {header = new_1} found

reorg-SameChain_example : SameChain chain (reorg 1 chain (new_1 ∷ new_2 ∷ [])).0
reorg-SameChain_example = reorg-SameChain 1 chain (new_1 ∷ new_2 ∷ []) short

write_headers-SameChain_example :
    SameChain chain (write_headers true chain (header_of 2 5 2 ∷ [])).0
write_headers-SameChain_example =
    write_headers-SameChain true chain (header_of 2 5 2 ∷ []) interrupted

is_unknown : has_header (get_header chain 2 1).1 5 2 ≡ false
unfolding has_header get_header read_header
is_unknown = refl

writes_again :
    (write_headers false
      (write_headers true chain (header_of 2 5 2 ∷ [])).0
      (header_of 2 5 2 ∷ [])).2
    ≡ none
unfolding write_headers get_header read_header record_headers has_header apply_all apply
writes_again = refl

write_headers-forgotten_example :
    let (hc', imported, _) =
      write_headers false
        (write_headers true chain (header_of 2 5 2 ∷ [])).0
        (header_of 2 5 2 ∷ []) in
    (imported ≡ 0) × (read_header memory hc'.chain_db 5 2 ≡ none)
write_headers-forgotten_example =
    write_headers-forgotten memory-IsStorage memory_lru-IsLru chain (header_of 2 5 2) is_unknown
      is_aborted writes_again

insert_header_chain-failed_example :
    ((insert_header_chain 5 false true chain (header_of 2 5 2 ∷ [])).0.current_header ≡ old_1)
    × (memory.read_canonical_hash
          (insert_header_chain 5 false true chain (header_of 2 5 2 ∷ [])).0.chain_db
          1
        ≡ 2)
insert_header_chain-failed_example =
    insert_header_chain-failed memory-IsStorage 5 false true chain (header_of 2 5 2 ∷ []) 1
      not_inserted
