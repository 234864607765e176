-- ===== src/Core/Evm.antt =====
-- core/evm.go: the block context of the virtual machine, its gas limit and its block hashes.
pub mod GasLimit
pub mod BlockHash
use mathlib.Core.Option
use mive.Base.{
  ℕ, zero, suc, ◌-◌, ◌/◌, Bool, true, false, Option, none, some, List, [], ◌∷◌, ◌++◌, get_elem?,
  length, last_of, ◌==◌, ltb, leb, if◌then◌else◌, sub64, uint64, max_uint64,
}
use mive.Core.Types.{Hash, zero_hash, Header, number_u64}
use mive.Params.{
  Address, ChainConfig, beneficiary_address, fee_reduction_denominator, block_gas_limit_multiplier,
  min_block_gas_limit,
}

-- `blockGasLimit`; `safe_mul` is go-ethereum's `SafeMul`, a product and whether it overflowed.
unfoldable pub block_gas_limit : {Eth : Type 0} → (ℕ → ℕ → ℕ × Bool) → ℕ → ChainConfig Eth → ℕ
block_gas_limit safe_mul gas_limit config =
    let (product, overflow) = safe_mul gas_limit (block_gas_limit_multiplier config) in
    let limit = if overflow then max_uint64 else product in
    if ltb limit (min_block_gas_limit config) then min_block_gas_limit config else limit

-- What `GetHashFn` reads of its reference header, a go-ethereum header.
pub record Reference : Type 0 where
  pub number : ℕ
  pub parent_hash : Hash

-- The loop of `GetHashFn` from the last known hash, with the hashes that it adds to the cache.
unfoldable pub hash_loop : ℕ → (Hash → ℕ → Option Header) → ℕ → Hash → ℕ → Option Hash × List Hash
hash_loop zero get_header n known_hash known_number = (none, [])
hash_loop (suc fuel) get_header n known_hash known_number =
    elim (get_header known_hash known_number) [
      | none ↦ (some zero_hash, [])
      | some header ↦
          let number = sub64 (number_u64 header) 1 in
          let (found, more) = hash_loop fuel get_header n header.parent_hash number in
          elim (n == number) [
            | true ↦ (some header.parent_hash, header.parent_hash ∷ [])
            | false ↦ (found, header.parent_hash ∷ more)
          ]
    ]

-- The function that `GetHashFn` returns, with the cache that it closes over before and after the
-- call; the cache is `first ∷ rest` once it is made. `none` is the end of the fuel.
unfoldable pub get_hash :
    ℕ → (Hash → ℕ → Option Header) → Reference → List Hash → ℕ → Option Hash × List Hash
get_hash fuel get_header ref cache n =
    let made : List Hash = elim cache [ [] ↦ ref.parent_hash ∷ [] | h ∷ hs ↦ h ∷ hs ] in
    let idx = sub64 (sub64 (uint64 ref.number) n) 1 in
    let known = last_of ref.parent_hash made in
    let (found, more) =
      hash_loop fuel get_header n known (sub64 (uint64 ref.number) (length made)) in
    if leb (uint64 ref.number) n
    then (some zero_hash, cache)
    else if ltb idx (length made)
    then (get_elem? made idx, made)
    else (found, made ++ more)

-- The fields of `vm.BlockContext` that the program touches; `none` is a nil fee.
pub record BlockContext : Type 0 where
  pub coinbase : Address
  pub base_fee : Option ℕ
  pub blob_base_fee : Option ℕ
  pub gas_limit : ℕ

-- `NewEVMBlockContext`; `new_context` is go-ethereum's constructor, at the author chosen. The hash
-- function of the context is `get_hash` over an empty cache.
unfoldable pub new_evm_block_context :
    {Eth : Type 0}
    → (ℕ → ℕ → ℕ × Bool)
    → (Address → BlockContext)
    → Option Address
    → ChainConfig Eth
    → BlockContext
new_evm_block_context safe_mul new_context author config =
    let ctx = new_context (elim author [ none ↦ beneficiary_address | some a ↦ a ]) in
    let reduced = λ (fee : ℕ). fee / fee_reduction_denominator config in
    record ctx {
      base_fee = Option.map reduced ctx.base_fee;
      blob_base_fee = Option.map reduced ctx.blob_base_fee;
      gas_limit = block_gas_limit safe_mul ctx.gas_limit config;
    }
