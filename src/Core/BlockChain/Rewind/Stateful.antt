-- ===== src/Core/BlockChain/Rewind/Stateful.antt =====
-- core/blockchain.go: where the search of `setHeadBeyondRoot` for a block with a state ends.
use mive.Base.{
  ℕ, zero, suc, ◌≤◌, ◌<◌, ◌≡◌, refl, ◌⊎◌, inl, inr, Bool, true, false, none, some, Option, arith,
  Bool-cases, Option-cases, sub64, not, ◌&&◌, sym, subst,
}
use mive.Core.Types.{Hash, zero_hash, Header, number_u64}
use mive.Core.Lru.{IsLru}
use mive.Core.Rawdb.Accessors.{read_header}
use mive.Core.HeaderChain.{Error}
use mive.Core.HeaderChain.WellFormed.{IsSound, IsCoherent}
use mive.Core.HeaderChain.Lookup.{chain_db-get_header, get_header-stored, get_header-IsCoherent}
use mive.Core.BlockChain.{Env, BlockChain}
use mive.Core.BlockChain.Reader.{get_header, has_state, state_recoverable}
use mive.Core.BlockChain.Rewind.{
  Search, is_above, cross_root, recover_state, settle, find_round, find_state, find_head,
}

-- A state that is recoverable can be recovered, and is there afterwards.
pub record IsRecovery (E : Env) : Type 0 where
  pub recovers :
      (t : E.Tries) (root : Hash)
      → E.recoverable t root ≡ true
      → (t' : E.Tries) × (E.recover t root ≡ some t') × (E.has_state t' root ≡ true)

module _ {E : Env} (recovery : IsRecovery E) where
  -- An end of the search without an error, at the genesis block or at a block with a state, and not
  -- above the number `n` unless it is the genesis block.
  pub record IsFound (genesis : Header) (n : ℕ) (r : BlockChain E × Search × Option Error)
      : Type 0 where
    pub fine : r.2 ≡ none
    pub stateful : (E.has_state r.0.tries r.1.block.root ≡ true) ⊎ (r.1.block ≡ genesis)
    pub below : (r.1.block.number ≤ n) ⊎ (r.1.block ≡ genesis)

  recover_state-IsFound :
      (bc : BlockChain E) (s : Search) (g : Header) (n : ℕ)
      → (has_state bc s.block.root ≡ true)
        ⊎ (state_recoverable bc s.block.root ≡ true)
        ⊎ (s.block ≡ g)
      → (s.block.number ≤ n) ⊎ (s.block ≡ g)
      → IsFound g n (recover_state bc s)
  unfolding recover_state has_state state_recoverable
  recover_state-IsFound bc s g n why below =
      elim (Bool-cases (E.recoverable bc.tries s.block.root)) [
        | inl can ↦
            let (t, done, there) = recovery.recovers bc.tries s.block.root can in
            record { fine = ground arith; stateful = ground arith; below = ground arith }
        | inr cannot ↦ record { fine = ground arith; stateful = ground arith; below = ground arith }
      ]

cross_root-zero : (s : Search) → cross_root zero_hash s ≡ s
unfolding cross_root
cross_root-zero s = ground arith

settle-beyond :
    {E : Env} (next : BlockChain E → Search → BlockChain E × Search × Option Error)
    (bc : BlockChain E) (s : Search)
    → s.beyond_root ≡ true
    → settle next bc s ≡ recover_state bc s
unfolding settle
settle-beyond next bc s beyond = rw beyond

missing-cases :
    {C : Type 0} (has can : Bool) → (not has && not can) ≡ false → (has ≡ true) ⊎ (can ≡ true) ⊎ C
missing-cases true can e = inl refl
missing-cases false true e = inr (inl refl)
missing-cases false false e = cc

-- A round ends at such a block if the search from the parent does.
find_round-IsFound :
    {E : Env} (recovery : IsRecovery E)
    (next : BlockChain E → Search → BlockChain E × Search × Option Error) (bc : BlockChain E)
    (pivot : Option ℕ) (s : Search) (n : ℕ)
    → s.beyond_root ≡ true
    → s.block.number ≤ n
    → let (parent, bc') = get_header bc s.block.parent_hash (sub64 (number_u64 s.block) 1) in
      ((p : Header)
        → parent ≡ some p
        → IsFound recovery bc.genesis_header n (next bc' (record s { block = p })))
      → IsFound recovery bc.genesis_header n (find_round next bc pivot s)
unfolding find_round
find_round-IsFound recovery next bc pivot s n beyond le rest =
    let (parent, bc') = get_header bc s.block.parent_hash (sub64 (number_u64 s.block) 1) in
    let at_genesis : Search = record s { block = bc.genesis_header } in
    let by_genesis = λ (c : BlockChain _).
      recover_state-IsFound recovery c at_genesis bc.genesis_header n (inr (inr refl)) (inr refl) in
    elim (Bool-cases (not (has_state bc s.block.root) && not (state_recoverable bc s.block.root))) [
      | inr there ↦
          rw (find_round, there, settle-beyond next bc s beyond)
            (recover_state-IsFound recovery bc s bc.genesis_header n (missing-cases _ _ there)
              (inl le))
      | inl missing ↦ elim (Bool-cases (is_above pivot s.block)) [
        | inr below ↦
            rw (find_round, missing, below, settle-beyond next bc at_genesis beyond) (by_genesis bc)
        | inl above ↦ elim (Option-cases parent) [
          | inl unknown ↦
              rw (find_round, missing, above, unknown, settle-beyond next bc' at_genesis beyond)
                (by_genesis bc')
          | inr (p, found) ↦ rw (find_round, missing, above, found) (rest p found)
        ]
      ]
    ]

-- The header of a block with a sound database and coherent caches, and that of its parent.
module _ {E : Env} (lru : IsLru E.header_lru) {g : ℕ} (bc : BlockChain E)
    (sound : IsSound E.storage g bc.hc.chain_db) (coherent : IsCoherent bc.hc) (block : Header)
    (stored : read_header E.storage bc.hc.chain_db block.hash block.number ≡ some block) where
  abbrev parent_of : Option Header × BlockChain E
  parent_of = get_header bc block.parent_hash (sub64 (number_u64 block) 1)

  parent_of-stored :
      {p : Header}
      → parent_of.0 ≡ some p
      → (read_header E.storage bc.hc.chain_db p.hash p.number ≡ some p)
        × (block.number ≡ suc p.number)
  unfolding get_header
  parent_of-stored {p} e =
      let at_parent =
        get_header-stored lru bc.hc sound coherent block.parent_hash (sub64 (number_u64 block) 1)
          {header = p} e in
      let keyed = sound.keyed block.parent_hash p.number at_parent in
      (
        subst (λ h. read_header E.storage bc.hc.chain_db h p.number ≡ some p) (sym keyed.0)
            at_parent,
        sound.parent_number block.hash block.number p.number stored at_parent,
      )

module _ {E : Env} (lru : IsLru E.header_lru) (recovery : IsRecovery E) where
  -- The search without a threshold ends with fuel beyond the number of its block, at a block with a
  -- state or at the genesis block.
  pub find_state-IsFound :
      (fuel : ℕ) {g : ℕ} (bc : BlockChain E) (pivot : Option ℕ) (s : Search) (n : ℕ)
      → IsSound E.storage g bc.hc.chain_db
      → IsCoherent bc.hc
      → read_header E.storage bc.hc.chain_db s.block.hash s.block.number ≡ some s.block
      → s.beyond_root ≡ true
      → s.block.number < fuel
      → s.block.number ≤ n
      → IsFound recovery bc.genesis_header n (find_state fuel bc zero_hash pivot s)
  unfolding find_state get_header
  find_state-IsFound zero bc pivot s n sound coherent stored beyond lt le = absurd (omega arith)
  find_state-IsFound (suc fuel) {g = g} bc pivot s n sound coherent stored beyond lt le =
      let next = λ (c : BlockChain E) (t : Search). find_state fuel c zero_hash pivot t in
      let ph = s.block.parent_hash in
      let m = sub64 (number_u64 s.block) 1 in
      let same = chain_db-get_header bc.hc ph m in
      rw (cross_root-zero s) (
        find_round-IsFound recovery next bc pivot s n beyond le (λ p found.
          let (stored', smaller) = parent_of-stored lru bc sound coherent s.block stored found in
          find_state-IsFound fuel {g = g} (get_header bc ph m).1 pivot (record s { block = p }) n
            (rw same sound) (get_header-IsCoherent lru bc.hc sound coherent ph m) (rw same stored')
            beyond (omega arith) (omega arith)))

module _ {E : Env} (lru : IsLru E.header_lru) (recovery : IsRecovery E) {g : ℕ} (fuel : ℕ)
    (bc : BlockChain E) (pivot : Option ℕ) (header : Header)
    (sound : IsSound E.storage g bc.hc.chain_db) (coherent : IsCoherent bc.hc)
    (unique : (h : Header) (n : ℕ)
      → read_header E.storage bc.hc.chain_db header.hash n ≡ some h
      → n ≤ header.number)
    (enough : header.number < fuel) where
  pub find_head-IsFound :
      (root_number : ℕ)
      → IsFound recovery bc.genesis_header header.number
          (find_head fuel bc zero_hash pivot root_number header)
  unfolding find_head get_header
  find_head-IsFound root_number =
      let same = chain_db-get_header bc.hc header.hash (number_u64 header) in
      elim (Option-cases (get_header bc header.hash (number_u64 header)).0) [
        | inl unknown ↦
            rw (find_head, unknown) (record { fine = refl; stateful = inr refl; below = inr refl })
        | inr (h, found) ↦
            let at =
              get_header-stored lru bc.hc sound coherent header.hash (number_u64 header)
                {header = h} found in
            let le = unique h h.number at in
            let own = sound.keyed header.hash h.number at in
            let stored =
              subst (λ k. read_header E.storage bc.hc.chain_db k h.number ≡ some h) (sym own.0)
                at in
            rw (find_head, found)
              (find_state-IsFound lru recovery fuel {g = g}
                (get_header bc header.hash (number_u64 header)).1 pivot
                (record { block = h; beyond_root = true; root_number = root_number }) header.number
                (rw same sound)
                (get_header-IsCoherent lru bc.hc sound coherent header.hash (number_u64 header))
                (rw same stored) refl (omega arith) le)
      ]
