-- ===== src/Tests/Ancestors.antt =====
-- Ancestors and validation of the headers of a fork: core/headerchain.go.
use mive.Base.{◌≡◌, ◌↔◌, ◌==◌, refl, none, some, false, [], ◌∷◌, arith}
use mive.Core.HeaderChain.Validate.{Checks, validate_header_chain}
use mive.Core.HeaderChain.Validate.Valid.{IsValid, validate_header_chain-IsValid}
use mive.Core.Rawdb.Accessors.{read_header}
use mive.Core.Memory.{memory}
use mive.Core.Memory.Laws.{memory_lru-IsLru}
use mive.Core.HeaderChain.Ancestor.{get_ancestor}
use mive.Core.HeaderChain.Ancestor.Path.{Up, IsOneNumber, get_ancestor-Up}
use mive.Tests.Chains.{chain, forked, new_1, new_2, chain-IsWellFormed, forked-IsClosed}

forked-IsOneNumber : IsOneNumber memory forked
unfolding read_header
forked-IsOneNumber = record { numbered = λ h n m e f. ground arith }

new_2-stored : read_header memory forked 4 2 ≡ some new_2
unfolding read_header
new_2-stored = refl

get_ancestor-Up_example :
    Up memory forked 2 4 2 (get_ancestor chain 4 2 2 7).0.hash
    × ((get_ancestor chain 4 2 2 7).0.number ≡ 0)
get_ancestor-Up_example =
    get_ancestor-Up memory_lru-IsLru chain 4 2 2 7 {header = new_2} chain-IsWellFormed
      forked-IsClosed forked-IsOneNumber new_2-stored (omega arith) (omega arith)

abbrev checks : Checks
checks = record { bad_hash = λ h. h == 77; rejects = λ i. false; interrupted = λ i. i == 9 }

validate_header_chain-IsValid_example :
    ((validate_header_chain checks (new_1 ∷ new_2 ∷ [])).1 ≡ none)
    ↔ IsValid checks new_1 (new_2 ∷ [])
validate_header_chain-IsValid_example = validate_header_chain-IsValid checks new_1 (new_2 ∷ [])
