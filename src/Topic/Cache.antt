-- ===== src/Topic/Cache.antt =====
-- mqtt-topic-engine/src/cache_strategy.rs, with the feature lru-cache, and what the program relies
-- on of the `lru` crate and of `std::sync::Mutex`.
use mqtt_typed_client_next.Base.{ℕ, Bool, Option, none, some, ◌≡◌, if◌then◌else◌, nat_eq, ◌⊎◌}

pub data CacheStrategy : Type 0 where
  lru : ℕ → CacheStrategy
  no_cache : CacheStrategy

unfoldable pub new : ℕ → CacheStrategy
new capacity = if nat_eq capacity 0 then no_cache else lru capacity

unfoldable pub capacity : CacheStrategy → Option ℕ
capacity (lru size) = some size
capacity no_cache = none

-- `lru::LruCache`: `get` moves the entry to the front, and `put` may drop another entry.
pub record LruCache (K V : Type 0) : Type 1 where
  pub Cache : Type 0
  pub empty : ℕ → Cache
  pub cap : Cache → ℕ
  pub get : K → Cache → Option V × Cache
  pub put : K → V → Cache → Cache
  pub cap-empty : (n : ℕ) → cap (empty n) ≡ n
  pub get-empty : (k : K) (n : ℕ) → (get k (empty n)).0 ≡ none
  -- A lookup changes no entry.
  pub get-get : (j k : K) (c : Cache) → (get j (get k c).1).0 ≡ (get j c).0
  -- What is found after a `put` is the new value or was found before.
  pub get-put :
      (j k : K) (v w : V) (c : Cache)
      → (get j (put k v c)).0 ≡ some w
      → ((j ≡ k) × (w ≡ v)) ⊎ ((get j c).0 ≡ some w)

-- A mutex is poisoned where a thread has panicked while it held the lock.
pub record Mutex (A : Type 0) : Type 0 where
  pub poisoned : Bool
  pub inner : A
