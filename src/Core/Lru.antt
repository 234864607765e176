-- ===== src/Core/Lru.antt =====
-- go-ethereum's lru.Cache, a parameter: the four methods that the chain calls, over an unknown cache.
use mive.Base.{◌≡◌, ◌⊎◌, Bool, Option, none, some, is_some}

pub record Lru (K V : Type 0) : Type 1 where
  pub Cache : Type 0
  pub get : Cache → K → Option V × Cache  -- marks the entry as used
  pub add : Cache → K → V → Cache  -- may evict other entries
  pub contains : Cache → K → Bool
  pub purge : Cache → Cache
  pub entry : Cache → K → Option V  -- what the cache holds, for the laws alone

-- The documented behaviour: entries appear by `add` alone, and may vanish by eviction.
pub record IsLru {K V : Type 0} (L : Lru K V) : Type 0 where
  pub get-entry : (c : L.Cache) (k : K) → (L.get c k).0 ≡ L.entry c k
  pub entry-get : (c : L.Cache) (k j : K) → L.entry (L.get c k).1 j ≡ L.entry c j
  pub entry-add :
      (c : L.Cache) (k : K) (v : V) (j : K) {w : V}
      → L.entry (L.add c k v) j ≡ some w
      → ((j ≡ k) × (w ≡ v)) ⊎ (L.entry c j ≡ some w)
  pub entry-add_self : (c : L.Cache) (k : K) (v : V) → L.entry (L.add c k v) k ≡ some v
  pub contains-entry : (c : L.Cache) (k : K) → L.contains c k ≡ is_some (L.entry c k)
  pub entry-purge : (c : L.Cache) (k : K) → L.entry (L.purge c) k ≡ none
