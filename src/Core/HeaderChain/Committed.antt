-- ===== src/Core/HeaderChain/Committed.antt =====
-- core/headerchain.go: the stored headers after a batch that writes the canonical index alone.
use mive.Base.{ℕ, ◌≡◌, refl, true, some, List, [], ◌∷◌, ◌++◌, All, Bytes}
use mive.Core.Types.{Hash}
use mive.Core.Rawdb.{
  Storage, Write, write_canonical_hash, delete_canonical_hash, write_head_header_hash,
}
use mive.Core.Rawdb.Accessors.{read_header}
use mive.Core.Rawdb.Effects.{IsStorage, header_after, is_index_write}
use mive.Core.HeaderChain.WellFormed.{IsSound, LinkedAt}

abbrev pub IndexOnly : List Write → Type 0
IndexOnly = All (λ w. is_index_write w ≡ true)

pub IndexOnly-append : (ws vs : List Write) → IndexOnly ws → IndexOnly vs → IndexOnly (ws ++ vs)
IndexOnly-append [] vs p q = q
IndexOnly-append (w ∷ ws) vs p q = (p.0, IndexOnly-append ws vs p.1 q)

header_after-IndexOnly :
    (ws : List Write) (h : Hash) (n : ℕ) (old : Bytes)
    → IndexOnly ws
    → header_after ws h n old ≡ old
unfolding header_after
header_after-IndexOnly [] h n old p = refl
header_after-IndexOnly (write_canonical_hash _ _ ∷ ws) h n old p =
    header_after-IndexOnly ws h n old p.1
header_after-IndexOnly (delete_canonical_hash _ ∷ ws) h n old p =
    header_after-IndexOnly ws h n old p.1
header_after-IndexOnly (write_head_header_hash _ ∷ ws) h n old p =
    header_after-IndexOnly ws h n old p.1
header_after-IndexOnly (_ ∷ ws) h n old p = cc (p.0)

module _ {S : Storage} (laws : IsStorage S) {db db' : S.Db} (ws : List Write) (only : IndexOnly ws)
    (done : S.commit ws db ≡ some db') where
  pub read_header-IndexOnly : (h : Hash) (n : ℕ) → read_header S db' h n ≡ read_header S db h n
  unfolding read_header
  read_header-IndexOnly h n =
      rw (laws.read_header_rlp-commit ws db h n done, header_after-IndexOnly ws h n _ only)

  pub IsSound-IndexOnly : {g : ℕ} → IsSound S g db → IsSound S g db'
  IsSound-IndexOnly sound = record {
    keyed = λ h n e. sound.keyed h n (rw (read_header-IndexOnly h n) at e);
    bounded = λ h n e. sound.bounded h n (rw (read_header-IndexOnly h n) at e);
    parent_number = λ h n m {header} e k.
        sound.parent_number h n m (rw (read_header-IndexOnly h n) at e)
          (rw (read_header-IndexOnly header.parent_hash m) at k);
  }

  pub LinkedAt-IndexOnly :
      {g : ℕ} {c : ℕ → Hash} {k : ℕ} → LinkedAt S g db c k → LinkedAt S g db' c k
  LinkedAt-IndexOnly {c = c} {k = k} l = record {
    header = l.header;
    stored = rw (read_header-IndexOnly (c k) k) l.stored;
    parent = l.parent;
  }
