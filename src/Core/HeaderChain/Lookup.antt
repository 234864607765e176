-- ===== src/Core/HeaderChain/Lookup.antt =====
-- core/headerchain.go: what `GetHeader` finds and leaves.
use mive.Base.{ℕ, ◌≡◌, ◌≢◌, none, some, arith, Option-cases, inl, inr}
use mive.Core.Types.{Hash, Header}
use mive.Core.Lru.{Lru, IsLru}
use mive.Core.Rawdb.{Storage}
use mive.Core.Rawdb.Accessors.{read_header}
use mive.Core.HeaderChain.{HeaderChain, get_header}
use mive.Core.HeaderChain.WellFormed.{IsSound, IsCoherent, IsWellFormed}

module _ {S : Storage} {H : Lru Hash Header} {N : Lru Hash ℕ} (hc : HeaderChain S H N) (h : Hash)
    (n : ℕ) where
  pub chain_db-get_header : (get_header hc h n).1.chain_db ≡ hc.chain_db
  unfolding get_header
  chain_db-get_header = ground arith

  pub current_header-get_header : (get_header hc h n).1.current_header ≡ hc.current_header
  unfolding get_header
  current_header-get_header = ground arith

  pub genesis_header-get_header : (get_header hc h n).1.genesis_header ≡ hc.genesis_header
  unfolding get_header
  genesis_header-get_header = ground arith

module _ {S : Storage} {H : Lru Hash Header} {N : Lru Hash ℕ} (lru : IsLru H) {g : ℕ}
    (hc : HeaderChain S H N) (sound : IsSound S g hc.chain_db) (coherent : IsCoherent hc) (h : Hash)
    (n : ℕ) where
  -- With a sound database and a coherent cache, a header that `GetHeader` answers with is stored
  -- under the hash that was asked for and its own number.
  pub get_header-stored :
      {header : Header}
      → (get_header hc h n).0 ≡ some header
      → read_header S hc.chain_db h header.number ≡ some header
  unfolding get_header
  get_header-stored {header} e = ground (
    arith,
    lru.get-entry hc.header_cache h,
    coherent.cached h {header = header},
    sound.keyed h n {header = header},
  )

  pub get_header_complete :
      {header : Header} → read_header S hc.chain_db h n ≡ some header → (get_header hc h n).0 ≢ none
  unfolding get_header
  get_header_complete e = ground (arith, lru.get-entry hc.header_cache h)

  cached-get_header :
      (k : Hash) {header : Header}
      → H.entry (get_header hc h n).1.header_cache k ≡ some header
      → read_header S hc.chain_db k header.number ≡ some header
  unfolding get_header
  cached-get_header k {header} e = elim (Option-cases (read_header S hc.chain_db h n)) [
    | inl missing ↦
        ground (arith, coherent.cached k {header = header}, lru.entry-get hc.header_cache h k)
    | inr (loaded, found) ↦ ground (
      arith,
      coherent.cached k {header = header},
      lru.entry-get hc.header_cache h k,
      lru.entry-add (H.get hc.header_cache h).1 h loaded k {w = header},
      sound.keyed h n found,
    )
  ]

  pub get_header-IsCoherent : IsCoherent (get_header hc h n).1
  get_header-IsCoherent = record {
    cached = λ k e. rw (chain_db-get_header hc h n) (cached-get_header k e);
  }

  pub get_header-IsWellFormed : IsWellFormed g hc → IsWellFormed g (get_header hc h n).1
  get_header-IsWellFormed wf = record {
    sound = rw (chain_db-get_header hc h n) wf.sound;
    coherent = get_header-IsCoherent;
    canonical = rw (chain_db-get_header hc h n, current_header-get_header hc h n) wf.canonical;
  }
