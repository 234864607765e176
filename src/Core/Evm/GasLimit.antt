-- ===== src/Core/Evm/GasLimit.antt =====
-- core/evm.go: the gas limit and the fees of a block.
use mathlib.Core.Option
use mive.Base.{
  ℕ, ◌*◌, ◌/◌, ◌%◌, ◌≤◌, ◌≡◌, Bool, Option, arith, ltb, leb, if◌then◌else◌, max_uint64, u64_mod,
}
use mive.Params.{
  Address, ChainConfig, default_min_block_gas_limit, default_block_gas_limit_multiplier,
  default_fee_reduction_denominator, beneficiary_address,
}
use mive.Core.Evm.{block_gas_limit, BlockContext, new_evm_block_context}

-- The documented behaviour of go-ethereum's `SafeMul` on 64-bit words.
pub record IsSafeMul (safe_mul : ℕ → ℕ → ℕ × Bool) : Type 0 where
  pub product : (x y : ℕ) → (safe_mul x y).0 ≡ x * y % u64_mod
  pub overflow : (x y : ℕ) → (safe_mul x y).1 ≡ ltb max_uint64 (x * y)

-- The product clamped between the two bounds.
abbrev pub clamped : ℕ → ℕ
clamped gas_limit =
    let wide = gas_limit * default_block_gas_limit_multiplier in
    let capped = if leb wide max_uint64 then wide else max_uint64 in
    if leb default_min_block_gas_limit capped then capped else default_min_block_gas_limit

module _ {Eth : Type 0} {safe_mul : ℕ → ℕ → ℕ × Bool} (mul : IsSafeMul safe_mul)
    (config : ChainConfig Eth) where
  -- With the documented `SafeMul`, the gas limit of a block is a hundred times the Ethereum one,
  -- held between the minimum and the largest 64-bit word.
  pub block_gas_limit-clamped :
      (gas_limit : ℕ) → block_gas_limit safe_mul gas_limit config ≡ clamped gas_limit
  unfolding block_gas_limit
  block_gas_limit-clamped gas_limit = ground (
    arith,
    mul.product gas_limit default_block_gas_limit_multiplier,
    mul.overflow gas_limit default_block_gas_limit_multiplier,
  )

  -- With the documented `SafeMul`, the gas limit of a block never falls when the Ethereum limit
  -- rises, and lies between the minimum and the largest 64-bit word.
  pub block_gas_limit_mono :
      (a b : ℕ)
      → a ≤ b
      → (block_gas_limit safe_mul a config ≤ block_gas_limit safe_mul b config)
        × (default_min_block_gas_limit ≤ block_gas_limit safe_mul a config)
        × (block_gas_limit safe_mul a config ≤ max_uint64)
  block_gas_limit_mono a b h = ground (arith, block_gas_limit-clamped a, block_gas_limit-clamped b)

-- A fee of the context is a fiftieth of go-ethereum's, or still missing; the coinbase of a block
-- without an author is the beneficiary.
pub new_evm_block_context-fees :
    {Eth : Type 0} (safe_mul : ℕ → ℕ → ℕ × Bool) (new_context : Address → BlockContext)
    (author : Option Address) (config : ChainConfig Eth)
    → let old = new_context (Option.get_or author beneficiary_address) in
      let new = new_evm_block_context safe_mul new_context author config in
      (new.base_fee ≡ Option.map (λ f. f / default_fee_reduction_denominator) old.base_fee)
      × (new.blob_base_fee
          ≡ Option.map (λ f. f / default_fee_reduction_denominator) old.blob_base_fee)
      × (new.coinbase ≡ old.coinbase)
unfolding new_evm_block_context
new_evm_block_context-fees safe_mul new_context author config = ground arith
