-- ===== src/Tests/Blocks.antt =====
-- Blocks and transactions: core/evm.go and core/state_transition.go on concrete inputs.
use mive.Base.{
  ℕ, ◌+◌, ◌*◌, ◌/◌, ◌%◌, ◌≤◌, ◌≡◌, ◌⊎◌, refl, Bool, ◌&&◌, ◌==◌, ltb, Option, none, some, [], ◌∷◌,
  if◌then◌else◌, arith, max_uint64, u64_mod,
}
use mive.Params.{
  ChainConfig, mainnet_chain_config, default_beacon_address, default_min_block_gas_limit,
  default_fee_reduction_denominator,
}
use mive.Core.Types.{Hash, Header}
use mive.Core.Evm.{Reference, get_hash, block_gas_limit}
use mive.Core.Evm.BlockHash.{IsNumbered, Agrees, block_hash, get_hash-block_hash}
use mive.Core.Evm.GasLimit.{IsSafeMul, clamped, block_gas_limit-clamped, block_gas_limit_mono}
use mive.Core.Transition.{Transaction, Tx, Ethereum, transaction_to_message, build_message}
use mive.Core.Transition.Fees.{IsMive, transaction_to_message-skipped, gas_price-le-fee_cap}
use mive.Tests.Chains.{genesis, new_1}

abbrev find_header : Hash → ℕ → Option Header
find_header h n =
    if h == 3 && n == 1 then some new_1 else if h == 1 && n == 0 then some genesis else none

abbrev reference : Reference
reference = record { number = 2; parent_hash = 3 }

find_header-IsNumbered : IsNumbered find_header reference
find_header-IsNumbered = record { numbered = λ d at e. ground (arith, e); word = omega arith }

get_hash-block_hash_example :
    ((get_hash 2 find_header reference [] 0).0 ≡ some (block_hash find_header reference 0))
    × Agrees find_header reference 0 (get_hash 2 find_header reference [] 0).1
get_hash-block_hash_example =
    get_hash-block_hash find_header reference find_header-IsNumbered 2 [] 0
      (λ i lt. absurd (omega arith)) (omega arith)

abbrev pub safe_mul : ℕ → ℕ → ℕ × Bool
safe_mul x y = (x * y % u64_mod, ltb max_uint64 (x * y))

safe_mul-IsSafeMul : IsSafeMul safe_mul
safe_mul-IsSafeMul = record { product = λ x y. refl; overflow = λ x y. refl }

abbrev pub config : ChainConfig Unit
config = mainnet_chain_config tt

block_gas_limit-clamped_example : block_gas_limit safe_mul 30000000 config ≡ clamped 30000000
block_gas_limit-clamped_example = block_gas_limit-clamped safe_mul-IsSafeMul config 30000000

block_gas_limit_mono_example :
    (block_gas_limit safe_mul 5 config ≤ block_gas_limit safe_mul max_uint64 config)
    × (default_min_block_gas_limit ≤ block_gas_limit safe_mul 5 config)
    × (block_gas_limit safe_mul 5 config ≤ max_uint64)
block_gas_limit_mono_example =
    block_gas_limit_mono safe_mul-IsSafeMul config 5 max_uint64 (omega arith)

-- A payload is decoded to the same transaction, whatever it is.
abbrev pub decoded : Tx Unit
decoded = record { gas = 21000; to = none; value = 7; data_bytes = []; access_list = tt }

abbrev pub geth : Ethereum Unit Unit
geth = record { blob_tx_type = 3; decode_tx = λ payload. some decoded; sender = λ tx. (5, none) }

abbrev pub paying : Transaction
paying = record {
  to = some default_beacon_address;
  tx_type = 2;
  data_bytes = 1 ∷ [];
  nonce = 0;
  gas_price = 1000;
  gas_fee_cap = 1000;
  gas_tip_cap = 100;
}

abbrev pub other : Transaction
other = record paying { to = some 4 }

paying_message :
    (transaction_to_message geth paying (some 500) config).0
    ≡ some (build_message geth paying decoded (some 500) config)
unfolding transaction_to_message
paying_message = refl

gas_price-le-fee_cap_example :
    ((build_message geth paying decoded (some 500) config).gas_price
      ≤ (build_message geth paying decoded (some 500) config).gas_fee_cap)
    × ((build_message geth paying decoded (some 500) config).gas_fee_cap
          * default_fee_reduction_denominator
        ≤ 1000)
    × (((build_message geth paying decoded (some 500) config).gas_price
          ≡ (build_message geth paying decoded (some 500) config).gas_fee_cap)
        ⊎ ((build_message geth paying decoded (some 500) config).gas_price
            ≡ (build_message geth paying decoded (some 500) config).gas_tip_cap
              + 500 / default_fee_reduction_denominator))
gas_price-le-fee_cap_example =
    gas_price-le-fee_cap geth config paying (some 500) 500 refl paying_message

pub not-IsMive : (mtx : Tx Unit) → ¬ IsMive geth config other (some 500) mtx
not-IsMive mtx m = let e = m.to_beacon in ground arith

transaction_to_message-skipped_example :
    transaction_to_message geth other (some 500) config ≡ (none, none)
transaction_to_message-skipped_example =
    transaction_to_message-skipped geth config other (some 500) not-IsMive
