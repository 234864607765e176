-- ===== src/Params.antt =====
-- params/config.go and params/protocol_params.go: the configuration of a chain.
use mive.Base.{ℕ}

-- `common.Address`, as the number that its 20 bytes spell.
abbrev pub Address : Type 0
Address = ℕ

abbrev pub default_fee_reduction_denominator : ℕ
default_fee_reduction_denominator = 50

abbrev pub default_block_gas_limit_multiplier : ℕ
default_block_gas_limit_multiplier = 100

abbrev pub default_min_block_gas_limit : ℕ
default_min_block_gas_limit = 30000000

abbrev pub default_beacon_address : Address
default_beacon_address = 0x315e

abbrev pub beneficiary_address : Address
beneficiary_address = 0

-- `MiveChainConfig`
pub record MiveChainConfig : Type 0 where
  pub genesis_block : ℕ
  pub beacon_address : Address

-- `ChainConfig`, over go-ethereum's own configuration.
pub record ChainConfig (Eth : Type 0) : Type 0 where
  pub eth : Eth
  pub mive : MiveChainConfig

-- `MainnetChainConfig`
abbrev pub mainnet_chain_config : {Eth : Type 0} → Eth → ChainConfig Eth
mainnet_chain_config eth = record {
  eth = eth;
  mive = record { genesis_block = 0; beacon_address = default_beacon_address };
}

module _ {Eth : Type 0} (c : ChainConfig Eth) where
  -- `FeeReductionDenominator`
  abbrev pub fee_reduction_denominator : ℕ
  fee_reduction_denominator = default_fee_reduction_denominator

  -- `BlockGasLimitMultiplier`
  abbrev pub block_gas_limit_multiplier : ℕ
  block_gas_limit_multiplier = default_block_gas_limit_multiplier

  -- `MinBlockGasLimit`
  abbrev pub min_block_gas_limit : ℕ
  min_block_gas_limit = default_min_block_gas_limit
