-- ===== src/Tests/BlockChains.antt =====
-- Block chains in memory: core/blockchain.go on concrete states.
use mive.Base.{
  ℕ, ◌≡◌, refl, Bool, false, ◌||◌, ◌==◌, none, some, ◌≢◌, ◌&&◌, Option, List, [], ◌∷◌,
  if◌then◌else◌, arith,
}
use mive.Core.Types.{Hash, zero_hash, Header}
use mive.Core.Rawdb.Accessors.{read_header, write_header}
use mive.Core.Memory.{Memory, memory, memory_lru, empty_memory, encode, apply, apply_all}
use mive.Core.Memory.Laws.{memory-IsStorage, memory_lru-IsLru}
use mive.Core.HeaderChain
use mive.Core.HeaderChain.WellFormed.{IsSound}
use mive.Core.HeaderChain.{HeaderChain, Error, deadlock, nil_dereference}
use mive.Core.HeaderChain.Rewind.{
  set_head_to, rewind_loop, rewind_step, call_update, delete_hashes, delete_nums, finish_rewind,
  is_done, retarget, nums_above,
}
use mive.Core.BlockChain.{Env, BlockChain, free, held, write_head_block, put, set_finalized}
use mive.Core.BlockChain.Reader.{has_state, state_recoverable}
use mive.Core.BlockChain.Reader
use mive.Core.BlockChain.Rewind.{
  Closure, update_fn, del_fn, move_head, move_snap_head, report_head, finish_update, find_head,
  find_state, find_round, settle, recover_state, cross_root,
}
use mive.Core.BlockChain.Rewind.Stateful.{IsRecovery}
use mive.Core.BlockChain.Rewind.Updated.{IsMoved, update_fn-IsMoved}
use mive.Core.BlockChain.SetHead
use mive.Core.BlockChain.SetHead.{
  marked, load_head_header, load_snap_block, load_finalized, load_markers, repair_headers,
  drop_markers, rewind_locked, announce_head, set_head_by, write_genesis, reset_with_genesis_block,
  set_head_beyond_root, set_head, reset, load_last_state, rewind_headers, callbacks,
}
use mive.Core.BlockChain.SetHead.Restart.{IsRestarted, reset-IsRestarted}
use mive.Core.BlockChain.SetHead.Restored.{IsAt, load_last_state-write_head_block}
use mive.Core.BlockChain.SetHead.Unavailable.{set_head-deadlock}
use mive.Core.BlockChain.SetHead.Rewound.{IsRewound, set_head-IsRewound}
use mive.Core.BlockChain.SetHead.Unloaded.{set_head-unloaded}
use mive.Core.BlockChain.SetHead.Endless.{IsTruncation, set_head-below_genesis}
use mive.Tests.Chains.{header_of, genesis, old_1, forked, chain, forked-IsSound, chain-IsWellFormed}

-- A hash and a number.
abbrev pub Block : Type 0
Block = Hash × ℕ

abbrev pub contains : List Hash → Hash → Bool
contains [] h = false
contains (k ∷ ks) h = k == h || contains ks h

-- The tries are the roots of the states that are there; the state of root 7 can be recovered.
abbrev pub env : (Hash → Option Block) → Env
env client = record {
  storage = memory;
  header_lru = memory_lru Header;
  number_lru = memory_lru ℕ;
  Block = Block;
  block_hash = λ b. b.0;
  block_number = λ b. b.1;
  block_lru = memory_lru Block;
  Receipts = Unit;
  receipts_lru = memory_lru Unit;
  read_receipts = λ db h n t. none;
  block_by_hash = client;
  Tries = List Hash;
  has_state = contains;
  is_hash_scheme = false;
  recoverable = λ t root. root == 7;
  recover = λ t root. if root == 7 then some (root ∷ t) else none;
}

abbrev online : Hash → Option Block
online h = if h == 1 then some (1, 0) else if h == 2 then some (2, 1) else none

abbrev offline : Hash → Option Block
offline h = none

env-IsRecovery : IsRecovery (env online)
env-IsRecovery = record { recovers = λ t root can. (root ∷ t, ground (arith, can), ground arith) }

-- The chain of two blocks, with its numbers in the database.
abbrev numbered : Memory
numbered = record forked {
  numbers = λ h. if h == 1 then some 0 else if h == 2 then some 1 else none;
}

-- A chain with these head markers.
abbrev at : (client : Hash → Option Block) → Memory → Option Header → BlockChain (env client)
at client db head = record {
  hc = record chain { chain_db = db };
  genesis_header = genesis;
  current_block = head;
  current_snap_block = head;
  current_final_block = none;
  current_safe_block = none;
  receipts_cache = [];
  block_cache = [];
  future_blocks = [];
  tries = [];
  mutex = free;
  proc_interrupt = false;
  chain_head_events = [];
}

abbrev start : Closure (env online)
start = record { chain = at online forked (some old_1); root_number = 0; failure = none }

update_fn-IsMoved_example :
    IsMoved (env online) genesis 1 (update_fn 2 zero_hash none 0 chain start old_1)
unfolding read_header
update_fn-IsMoved_example =
    update_fn-IsMoved memory_lru-IsLru env-IsRecovery 2 none 0 chain start old_1 old_1
      forked-IsSound chain-IsWellFormed.coherent (λ h n e. ground arith) (omega arith) refl refl
      (omega arith)

set_head-unloaded_example : (set_head 1 5 (at online forked none) 0).1 ≡ some nil_dereference
set_head-unloaded_example =
    set_head-unloaded 0 4 (at online forked none) 0 refl refl refl (omega arith)

-- The chain of which the client answers no block, under the lock.
abbrev locked : BlockChain (env offline)
locked = record (at offline numbered (some old_1)) { mutex = held }

abbrev rewinding : BlockChain (env offline) × ℕ × Option Error
rewinding =
    rewind_headers 5 locked (record { chain = locked; root_number = 0; failure = none }) zero_hash
      (record { head_block = 0; head_time = 0 })

rewound : rewinding.2 ≡ none
unfolding rewind_headers callbacks set_head_to rewind_loop rewind_step call_update delete_hashes
    delete_nums finish_rewind update_fn del_fn move_head move_snap_head report_head finish_update
    find_head find_state find_round settle recover_state cross_root HeaderChain.get_header
    Reader.get_header is_done retarget nums_above read_header has_state state_recoverable apply_all
    apply
rewound = refl

dropped : (drop_markers rewinding.0 0).1 ≡ none
unfolding drop_markers put rewind_headers callbacks set_head_to rewind_loop rewind_step call_update
    delete_hashes delete_nums finish_rewind update_fn del_fn move_head move_snap_head report_head
    finish_update find_head find_state find_round settle recover_state cross_root
    HeaderChain.get_header Reader.get_header is_done retarget nums_above read_header has_state
    state_recoverable apply_all apply
dropped = refl

set_head-deadlock_example : (set_head 2 5 (at offline numbered (some old_1)) 0).1 ≡ some deadlock
set_head-deadlock_example =
    set_head-deadlock {E = env offline} memory_lru-IsLru (λ h. refl) 0 5
      (at offline numbered (some old_1)) 0 refl rewound dropped

rewinds : (set_head 1 5 (at online numbered (some old_1)) 0).1 ≡ none
unfolding set_head set_head_by set_head_beyond_root SetHead.locked rewind_locked announce_head
    write_genesis write_head_block load_last_state load_markers load_head_header load_snap_block
    load_finalized marked repair_headers set_finalized Reader.get_block Reader.get_block_by_hash
    Reader.get_header_by_hash HeaderChain.get_header_by_hash HeaderChain.get_block_number
    write_header drop_markers put rewind_headers callbacks set_head_to rewind_loop rewind_step
    call_update delete_hashes delete_nums finish_rewind update_fn del_fn move_head move_snap_head
    report_head finish_update find_head find_state find_round settle recover_state cross_root
    HeaderChain.get_header Reader.get_header is_done retarget nums_above read_header has_state
    state_recoverable apply_all apply
rewinds = refl

set_head-IsRewound_example :
    IsRewound (at online numbered (some old_1)) (set_head 1 5 (at online numbered (some old_1)) 0).0
set_head-IsRewound_example =
    set_head-IsRewound {E = env online} memory_lru-IsLru memory_lru-IsLru 1 5
      (at online numbered (some old_1)) 0 rewinds

restarts : (reset 3 5 (at online numbered (some old_1))).1 ≡ none
unfolding reset reset_with_genesis_block set_head set_head_by set_head_beyond_root SetHead.locked
    rewind_locked announce_head write_genesis write_head_block load_last_state load_markers
    load_head_header load_snap_block load_finalized marked repair_headers set_finalized
    Reader.get_block Reader.get_block_by_hash Reader.get_header_by_hash
    HeaderChain.get_header_by_hash HeaderChain.get_block_number write_header drop_markers put
    rewind_headers callbacks set_head_to rewind_loop rewind_step call_update delete_hashes
    delete_nums finish_rewind update_fn del_fn move_head move_snap_head report_head finish_update
    find_head find_state find_round settle recover_state cross_root HeaderChain.get_header
    Reader.get_header is_done retarget nums_above read_header has_state state_recoverable apply_all
    apply
restarts = refl

reset-IsRestarted_example : IsRestarted genesis (reset 3 5 (at online numbered (some old_1))).0
reset-IsRestarted_example =
    reset-IsRestarted {E = env online} memory-IsStorage 3 5 (at online numbered (some old_1))
      restarts

writes : (write_head_block (at online numbered none) old_1).1 ≡ none
unfolding write_head_block put apply_all apply
writes = refl

found : read_header memory numbered 2 1 ≡ some old_1
unfolding read_header
found = refl

-- A chain as it is made, over a database.
abbrev fresh : Memory → BlockChain (env online)
fresh db = at online db none

load_last_state-write_head_block_example :
    let stored = (write_head_block (at online numbered none) old_1).0.hc.chain_db in
    let loaded = load_last_state (λ bc. (bc, some deadlock)) (fresh stored) in
    (loaded.1 ≡ none) × IsAt old_1 loaded.0
load_last_state-write_head_block_example =
    load_last_state-write_head_block {E = env online} memory-IsStorage memory_lru-IsLru
      memory_lru-IsLru memory_lru-IsLru old_1 (λ bc. (bc, some deadlock)) (at online numbered none)
      (fresh (write_head_block (at online numbered none) old_1).0.hc.chain_db) (2, 1)
      (λ e. ground (arith, e)) writes refl found refl refl refl refl refl refl

-- A chain that starts at number 5, with one more block.
abbrev late_genesis : Header
late_genesis = header_of 99 1 5

abbrev late_head : Header
late_head = header_of 1 2 6

abbrev late_db : Memory
late_db = record empty_memory {
  headers = λ h n.
      if h == 1 && n == 5
      then encode late_genesis
      else if h == 2 && n == 6
      then encode late_head
      else [];
}

abbrev late : BlockChain (env online)
late = record (at online late_db (some late_head)) {
  hc = record chain {
    chain_db = late_db;
    genesis_header = late_genesis;
    current_header = late_head;
  };
  genesis_header = late_genesis;
}

late-IsSound : IsSound memory 5 late_db
unfolding read_header
late-IsSound = record {
  keyed = λ h n e. ground arith;
  bounded = λ h n e. ground arith;
  parent_number = λ h n m e f. ground arith;
}

env-IsTruncation : IsTruncation (env online)
env-IsTruncation = record { read_header-truncate_head = λ db num h n done e. ground arith }

set_head-below_genesis_example : (set_head 3 50 late 4).1 ≢ none
set_head-below_genesis_example =
    set_head-below_genesis {E = env online} memory-IsStorage memory_lru-IsLru env-IsTruncation 3 50
      late 4 late-IsSound (record { cached = λ h e. ground arith }) (omega arith) (omega arith)
      (omega arith)
