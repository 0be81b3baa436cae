-- ===== src/Cache.antt =====
-- leveldb/include/leveldb/cache.h, which is empty: what leveldb/table/table.cc and
-- leveldb/db/table_cache.cc ask of a cache, as an interface.
use leveldb_study.Base.{ℕ, ◌+◌, ◌-◌, ◌≡◌, ◌⊎◌, Option, none, some}
use leveldb_study.Status.{Bytes}

-- A cache of values `V`. `insert` is given the charge; the deleter runs inside the cache.
pub record Cache (V : Type 0) : Type 1 where
  pub State : Type 0
  pub Handle : Type 0
  pub new_id : State → ℕ × State
  pub lookup : Bytes → State → Option Handle × State
  pub insert : Bytes → V → ℕ → State → Handle × State
  pub value : Handle → State → V
  pub release : Handle → State → State

-- Documented behaviour: a lookup gives what was inserted under that key, every operation may evict
-- entries and adds none but the inserted one, and a handle pins its entry until it is released.
pub record IsCache {V : Type 0} (c : Cache V) : Type 0 where
  pub contents : c.State → Bytes → Option V
  pub pins : c.State → ℕ
  pub new_id-contents :
      (s : c.State) (k : Bytes) (v : V) → contents (c.new_id s).1 k ≡ some v → contents s k ≡ some v
  pub lookup-contents :
      (k k' : Bytes) (v : V) (s : c.State)
      → contents (c.lookup k s).1 k' ≡ some v
      → contents s k' ≡ some v
  pub lookup-value :
      (k : Bytes) (h : c.Handle) (s : c.State)
      → (c.lookup k s).0 ≡ some h
      → contents s k ≡ some (c.value h (c.lookup k s).1)
  pub insert-contents :
      (k k' : Bytes) (v v' : V) (n : ℕ) (s : c.State)
      → contents (c.insert k v n s).1 k' ≡ some v'
      → ((k' ≡ k) × (v' ≡ v)) ⊎ (contents s k' ≡ some v')
  pub insert-value :
      (k : Bytes) (v : V) (n : ℕ) (s : c.State)
      → c.value (c.insert k v n s).0 (c.insert k v n s).1 ≡ v
  pub release-contents :
      (h : c.Handle) (k : Bytes) (v : V) (s : c.State)
      → contents (c.release h s) k ≡ some v
      → contents s k ≡ some v
  pub new_id-pins : (s : c.State) → pins (c.new_id s).1 ≡ pins s
  pub lookup-pins_some :
      (k : Bytes) (h : c.Handle) (s : c.State)
      → (c.lookup k s).0 ≡ some h
      → pins (c.lookup k s).1 ≡ pins s + 1
  pub lookup-pins_none :
      (k : Bytes) (s : c.State) → (c.lookup k s).0 ≡ none → pins (c.lookup k s).1 ≡ pins s
  pub insert-pins :
      (k : Bytes) (v : V) (n : ℕ) (s : c.State) → pins (c.insert k v n s).1 ≡ pins s + 1
  pub release-pins : (h : c.Handle) (s : c.State) → pins (c.release h s) ≡ pins s - 1
