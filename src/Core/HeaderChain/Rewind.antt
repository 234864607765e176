-- ===== src/Core/HeaderChain/Rewind.antt =====
-- core/headerchain.go: `setHead`, which rewinds the chain to a block or a timestamp.
pub mod High
pub mod Endless
pub mod Kept
use mive.Base.{
  ℕ, zero, suc, Bool, true, false, ◌&&◌, ◌||◌, Option, none, some, List, [], ◌∷◌, ◌++◌, ◌==◌, ltb,
  leb, if◌then◌else◌, add64, sub64,
}
use mive.Core.Types.{Hash, Header, number_u64}
use mive.Core.Lru.{Lru}
use mive.Core.Rawdb.{Storage, Write, write_head_header_hash, delete_header, delete_canonical_hash}
use mive.Core.HeaderChain.{HeaderChain, Error, fatal, out_of_fuel, get_header}

-- `headBlock` and `headTime`, which the loop may change.
pub record Target : Type 0 where
  pub head_block : ℕ
  pub head_time : ℕ

-- The closure `done`.
unfoldable pub is_done : Target → Header → Bool
is_done t header =
    if ltb 0 t.head_time then leb header.time t.head_time else leb (number_u64 header) t.head_block

-- What `updateFn` asks for, if it forces the rewind further down.
unfoldable pub retarget : Target → Header → Bool → Target
retarget t new_head force =
    if force
      && (ltb 0 t.head_time && ltb new_head.time t.head_time
          || t.head_time == 0 && ltb (number_u64 new_head) t.head_block)
    then record { head_block = number_u64 new_head; head_time = 0 }
    else t

-- The loop over leftover numbers above the first header, which puts each in front of the last.
unfoldable pub nums_above : (S : Storage) → ℕ → S.Db → ℕ → List ℕ → Option (List ℕ)
nums_above S zero db n nums = none
nums_above S (suc fuel) db n nums = elim (S.read_all_hashes db n) [
  | [] ↦ some nums
  | hash ∷ hashes ↦ nums_above S fuel db (add64 n 1) (n ∷ nums)
]

module _ (S : Storage) (H : Lru Hash Header) (N : Lru Hash ℕ) (C : Type 0) where
  -- `UpdateHeadBlocksCallback`, over the state `C` of its closure: what it leaves, what it writes to
  -- the batch, and the head and the flag that it returns.
  pub record Update : Type 0 where
    pub chain : HeaderChain S H N
    pub closure : C
    pub writes : List Write
    pub new_head : Header
    pub force : Bool

  -- The two callbacks, each of which may be nil.
  pub record Callbacks : Type 0 where
    pub update_fn : Option (HeaderChain S H N → C → Header → Update)
    pub del_fn : Option (HeaderChain S H N → C → Hash → ℕ → HeaderChain S H N × C × List Write)

  -- The variables of the loop.
  pub record Rewinding : Type 0 where
    pub chain : HeaderChain S H N
    pub closure : C
    pub target : Target
    pub origin : Bool
    pub batch : List Write

module _ {S : Storage} {H : Lru Hash Header} {N : Lru Hash ℕ} {C : Type 0}
    (cb : Callbacks S H N C) where
  unfoldable pub call_update : HeaderChain S H N → C → Target → Header → Update S H N C × Target
  call_update hc c t parent = elim cb.update_fn [
    | none ↦ (record { chain = hc; closure = c; writes = []; new_head = parent; force = false }, t)
    | some f ↦ let u = f hc c parent in (u, retarget t u.new_head u.force)
  ]

  -- The deletion of the headers with one number.
  unfoldable pub delete_hashes :
      HeaderChain S H N → C → List Hash → ℕ → HeaderChain S H N × C × List Write
  delete_hashes hc c [] num = (hc, c, delete_canonical_hash num ∷ [])
  delete_hashes hc c (hash ∷ hashes) num =
      let called : HeaderChain S H N × C × List Write = elim cb.del_fn [
        | none ↦ (hc, c, [])
        | some f ↦ f hc c hash num
      ] in
      let (hc', c', ws) = called in
      let (hc'', c'', rest) = delete_hashes hc' c' hashes num in
      (hc'', c'', ws ++ delete_header hash num ∷ rest)

  -- The loop over the numbers to delete; a number without hashes stands for the header itself.
  unfoldable pub delete_nums :
      HeaderChain S H N → C → Header → List ℕ → HeaderChain S H N × C × List Write
  delete_nums hc c hdr [] = (hc, c, [])
  delete_nums hc c hdr (num ∷ nums) =
      let stored = S.read_all_hashes hc.chain_db num in
      let hashes : List Hash = elim stored [ [] ↦ hdr.hash ∷ [] | h ∷ hs ↦ h ∷ hs ] in
      let (hc', c', ws) = delete_hashes hc c hashes num in
      let (hc'', c'', rest) = delete_nums hc' c' hdr nums in (hc'', c'', ws ++ rest)

  -- One round of the loop, for a header `hdr` that is not yet done.
  unfoldable pub rewind_step : ℕ → Rewinding S H N C → Header → Rewinding S H N C × Option Error
  rewind_step fuel r hdr =
      let num = number_u64 hdr in
      let (found, hc) = get_header r.chain hdr.parent_hash (sub64 num 1) in
      let parent : Header = elim found [ none ↦ hc.genesis_header | some p ↦ p ] in
      let (u, target) = call_update hc r.closure r.target parent in
      elim (S.commit (u.writes ++ write_head_header_hash parent.hash ∷ []) u.chain.chain_db) [
        | none ↦ (record r { chain = u.chain; closure = u.closure; target = target }, some fatal)
        | some db ↦
            let hc' : HeaderChain S H N = record u.chain {
              chain_db = db;
              current_header = parent;
            } in
            let above : Option (List ℕ) = elim r.origin [
              | true ↦ nums_above S fuel db (add64 num 1) []
              | false ↦ some []
            ] in
            elim above [
              | none ↦
                  (record r { chain = hc'; closure = u.closure; target = target }, some out_of_fuel)
              | some nums ↦
                  let (hc'', c, ws) = delete_nums hc' u.closure hdr (nums ++ num ∷ []) in
                  (
                    record {
                      chain = hc'';
                      closure = c;
                      target = target;
                      origin = false;
                      batch = r.batch ++ ws;
                    },
                    none,
                  )
            ]
      ]

  -- The loop over the rounds.
  unfoldable pub rewind_loop : ℕ → Rewinding S H N C → Rewinding S H N C × Option Error
  rewind_loop zero r = (r, some out_of_fuel)
  rewind_loop (suc fuel) r =
      let hdr = r.chain.current_header in
      let (r', error) = rewind_step fuel r hdr in
      elim (is_done r.target hdr) [
        | true ↦ (r, none)
        | false ↦ elim error [ some e ↦ (r', some e) | none ↦ rewind_loop fuel r' ]
      ]

  -- The deletions are flushed and the caches cleared.
  unfoldable pub finish_rewind : Rewinding S H N C → HeaderChain S H N × C × Option Error
  finish_rewind r = elim (S.commit r.batch r.chain.chain_db) [
    | none ↦ (r.chain, r.closure, some fatal)
    | some db ↦ (
      record r.chain {
        chain_db = db;
        header_cache = H.purge r.chain.header_cache;
        number_cache = N.purge r.chain.number_cache;
      },
      r.closure,
      none,
    )
  ]

  -- `setHead`; `SetHead` has a `headTime` of 0, `SetHeadWithTimestamp` a `headBlock` of 0.
  unfoldable pub set_head_to :
      ℕ → HeaderChain S H N → C → Target → HeaderChain S H N × C × Option Error
  set_head_to fuel hc c t =
      let start : Rewinding S H N C = record {
        chain = hc;
        closure = c;
        target = t;
        origin = true;
        batch = [];
      } in
      let (r, error) = rewind_loop fuel start in
      if ltb 0 t.head_time && ltb t.head_time hc.genesis_header.time
      then (hc, c, some fatal)
      else elim error [ some e ↦ (r.chain, r.closure, some e) | none ↦ finish_rewind r ]

  -- `SetHead`
  abbrev pub set_head : ℕ → HeaderChain S H N → C → ℕ → HeaderChain S H N × C × Option Error
  set_head fuel hc c head = set_head_to fuel hc c (record { head_block = head; head_time = 0 })

  -- `SetHeadWithTimestamp`
  abbrev pub set_head_with_timestamp :
      ℕ → HeaderChain S H N → C → ℕ → HeaderChain S H N × C × Option Error
  set_head_with_timestamp fuel hc c time =
      set_head_to fuel hc c (record { head_block = 0; head_time = time })
