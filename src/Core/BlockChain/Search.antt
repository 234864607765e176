-- ===== src/Core/BlockChain/Search.antt =====
-- core/blockchain.go: the search of `setHeadBeyondRoot` for a block with a state.
use mive.Base.{
  ℕ, zero, suc, Bool, true, false, not, ◌&&◌, ◌||◌, Option, none, some, ◌==◌, ltb, if◌then◌else◌,
  sub64,
}
use mive.Core.Types.{Hash, zero_hash, Header, number_u64}
use mive.Core.HeaderChain.{Error, fatal, out_of_fuel, nil_dereference}
use mive.Core.BlockChain.{Env, BlockChain}
use mive.Core.BlockChain.Reader.{get_header, has_state, state_recoverable}

-- `newHeadBlock`, `beyondRoot` and `rootNumber`.
pub record Search : Type 0 where
  pub block : Header
  pub beyond_root : Bool
  pub root_number : ℕ

-- The check of the threshold at the start of a round.
unfoldable pub cross_root : Hash → Search → Search
cross_root root s =
    if not (root == zero_hash) && (not s.beyond_root && s.block.root == root)
    then record s { beyond_root = true; root_number = number_u64 s.block }
    else s

-- Whether the search may go below the block: there is no pivot, or the block is above it.
abbrev pub is_above : Option ℕ → Header → Bool
is_above none block = true
is_above (some p) block = ltb p (number_u64 block)

module _ {E : Env} where
  -- The recovery of a state at the end of the search; `log.Crit` ends the process.
  unfoldable pub recover_state : BlockChain E → Search → BlockChain E × Search × Option Error
  recover_state bc s =
      if not (has_state bc s.block.root) && state_recoverable bc s.block.root
      then elim (E.recover bc.tries s.block.root) [
        | none ↦ (bc, s, some fatal)
        | some tries ↦ (record bc { tries = tries }, s, none)
      ]
      else (bc, s, none)

  -- The end of a round, with the next rounds as `next`. A nil parent is used in the next round.
  unfoldable pub settle :
      (BlockChain E → Search → BlockChain E × Search × Option Error)
      → BlockChain E
      → Search
      → BlockChain E × Search × Option Error
  settle next bc s =
      let (parent, bc') = get_header bc s.block.parent_hash (sub64 (number_u64 s.block) 1) in
      elim (s.beyond_root || number_u64 s.block == number_u64 bc.genesis_header) [
        | true ↦ recover_state bc s
        | false ↦ elim parent [
          | none ↦ (bc', s, some nil_dereference)
          | some p ↦ next bc' (record s { block = p })
        ]
      ]

  -- A round of the search once the threshold is checked, with the next rounds as `next`.
  unfoldable pub find_round :
      (BlockChain E → Search → BlockChain E × Search × Option Error)
      → BlockChain E
      → Option ℕ
      → Search
      → BlockChain E × Search × Option Error
  find_round next bc pivot s =
      let missing = not (has_state bc s.block.root) && not (state_recoverable bc s.block.root) in
      let (parent, bc') = get_header bc s.block.parent_hash (sub64 (number_u64 s.block) 1) in
      let at_genesis : Search = record s { block = bc.genesis_header } in
      elim missing [
        | false ↦ settle next bc s
        | true ↦ elim (is_above pivot s.block) [
          | false ↦ settle next bc at_genesis
          | true ↦ elim parent [
            | some p ↦ next bc' (record s { block = p })
            | none ↦ settle next bc' at_genesis
          ]
        ]
      ]

  -- The loop that goes back to a block with a state.
  unfoldable pub find_state :
      ℕ → BlockChain E → Hash → Option ℕ → Search → BlockChain E × Search × Option Error
  find_state zero bc root pivot s = (bc, s, some out_of_fuel)
  find_state (suc fuel) bc root pivot s =
      find_round (λ c t. find_state fuel c root pivot t) bc pivot (cross_root root s)

  -- The head block that the callback chooses for the header.
  unfoldable pub find_head :
      ℕ → BlockChain E → Hash → Option ℕ → ℕ → Header → BlockChain E × Search × Option Error
  find_head fuel bc root pivot root_number header =
      let (found, bc') = get_header bc header.hash (number_u64 header) in
      let start : Search = record {
        block = bc.genesis_header;
        beyond_root = root == zero_hash;
        root_number = root_number;
      } in
      elim found [
        | none ↦ (bc', start, none)
        | some h ↦ find_state fuel bc' root pivot (record start { block = h })
      ]
