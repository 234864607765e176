-- ===== src/Core/HeaderChain/Rewind/High.antt =====
-- core/headerchain.go: a chain whose headers all have numbers above a given one, and what keeps it so.
use mive.Base.{
  ℕ, ◌<◌, ◌≡◌, refl, true, false, some, List, [], ◌∷◌, ◌++◌, arith, Option-cases, Bytes, inl, inr,
  Bool, All,
}
use mive.Core.Types.{Hash, Header, number_u64}
use mive.Core.Lru.{Lru, IsLru}
use mive.Core.Rawdb.{
  Storage, Write, write_head_header_hash, write_head_block_hash, write_head_fast_block_hash,
}
use mive.Core.Rawdb.Accessors.{read_header}
use mive.Core.Rawdb.Effects.{header_after}
use mive.Core.HeaderChain.{HeaderChain, get_header}
use mive.Core.HeaderChain.Lookup.{
  chain_db-get_header, current_header-get_header, genesis_header-get_header,
}

-- Every header that the chain can come by has a number above `t`.
pub record IsHigh {S : Storage} {H : Lru Hash Header} {N : Lru Hash ℕ} (t : ℕ)
    (hc : HeaderChain S H N) : Type 0 where
  pub head : t < number_u64 hc.current_header
  pub genesis : t < number_u64 hc.genesis_header
  pub cached :
      (h : Hash) {header : Header} → H.entry hc.header_cache h ≡ some header → t < number_u64 header
  pub stored :
      (h : Hash) (n : ℕ) {header : Header}
      → read_header S hc.chain_db h n ≡ some header
      → t < number_u64 header

module _ {S : Storage} {H : Lru Hash Header} {N : Lru Hash ℕ} (lru : IsLru H) (t : ℕ)
    (hc : HeaderChain S H N) (high : IsHigh t hc) (h : Hash) (n : ℕ) where
  pub get_header-above :
      {header : Header} → (get_header hc h n).0 ≡ some header → t < number_u64 header
  unfolding get_header
  get_header-above {header} e = ground (
    arith,
    lru.get-entry hc.header_cache h,
    high.cached h {header = header},
    high.stored h n {header = header},
  )

  cached-above :
      (k : Hash) {header : Header}
      → H.entry (get_header hc h n).1.header_cache k ≡ some header
      → t < number_u64 header
  unfolding get_header
  cached-above k {header} e = elim (Option-cases (read_header S hc.chain_db h n)) [
    | inl missing ↦
        ground (arith, high.cached k {header = header}, lru.entry-get hc.header_cache h k)
    | inr (loaded, found) ↦ ground (
      arith,
      high.cached k {header = header},
      lru.entry-get hc.header_cache h k,
      lru.entry-add (H.get hc.header_cache h).1 h loaded k {w = header},
      high.stored h n found,
    )
  ]

  pub get_header-IsHigh : IsHigh t (get_header hc h n).1
  get_header-IsHigh = record {
    head = rw (current_header-get_header hc h n) high.head;
    genesis = rw (genesis_header-get_header hc h n) high.genesis;
    cached = cached-above;
    stored = λ k m e. high.stored k m (rw (chain_db-get_header hc h n) at e);
  }

-- Writes of the markers of the head.
abbrev is_marker_write : Write → Bool
is_marker_write (write_head_header_hash hash) = true
is_marker_write (write_head_block_hash hash) = true
is_marker_write (write_head_fast_block_hash hash) = true
is_marker_write _ = false

abbrev pub MarkersOnly : List Write → Type 0
MarkersOnly = All (λ w. is_marker_write w ≡ true)

pub MarkersOnly-append :
    (ws vs : List Write) → MarkersOnly ws → MarkersOnly vs → MarkersOnly (ws ++ vs)
MarkersOnly-append [] vs p q = q
MarkersOnly-append (w ∷ ws) vs p q = (p.0, MarkersOnly-append ws vs p.1 q)

pub header_after-MarkersOnly :
    (ws : List Write) (h : Hash) (n : ℕ) (old : Bytes)
    → MarkersOnly ws
    → header_after ws h n old ≡ old
unfolding header_after
header_after-MarkersOnly [] h n old p = refl
header_after-MarkersOnly (write_head_header_hash _ ∷ ws) h n old p =
    header_after-MarkersOnly ws h n old p.1
header_after-MarkersOnly (write_head_block_hash _ ∷ ws) h n old p =
    header_after-MarkersOnly ws h n old p.1
header_after-MarkersOnly (write_head_fast_block_hash _ ∷ ws) h n old p =
    header_after-MarkersOnly ws h n old p.1
header_after-MarkersOnly (_ ∷ ws) h n old p = cc (p.0)
