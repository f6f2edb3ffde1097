-- ===== src/Topic/PatternPath/Access.antt =====
-- The getters of topic_pattern_path.rs.
use mqtt_typed_client_next.Base.{
  ℕ, Bool, false, Option, none, some, List, [], ◌∷◌, length, Result, ok, err, ◌≡◌, refl,
  if◌then◌else◌, Failure, panicked, >>=-eq-ok, ok-injective,
}
use mathlib.Core.Path.{subst}
use mqtt_typed_client_next.Base.Text.{Text}
use mqtt_typed_client_next.Topic.Item.{TopicPatternItem, TopicPatternError}
use mqtt_typed_client_next.Topic.Cache.{CacheStrategy, lru, no_cache, LruCache, Mutex}
use mqtt_typed_client_next.Topic.TopicMatch.{TopicMatch}
use mqtt_typed_client_next.Topic.PatternPath.{
  TopicPatternPath, new_from_string, cache_of, is_hash, validated,
}

abbrev pub last_is_hash : List TopicPatternItem → Bool
last_is_hash [] = false
last_is_hash (item ∷ []) = is_hash item
last_is_hash (item ∷ (next ∷ rest)) = last_is_hash (next ∷ rest)

module _ {C : Type 0} where
  abbrev pub topic_pattern : TopicPatternPath C → Text
  topic_pattern p = p.template_pattern

  abbrev pub contains_hash : TopicPatternPath C → Bool
  contains_hash p = last_is_hash p.segments

  abbrev pub len : TopicPatternPath C → ℕ
  len p = length p.segments

module _ (cache : LruCache Text TopicMatch) where
  open cache use {Cache}

  -- A lock that is poisoned makes `unwrap` panic.
  abbrev strategy_of : Option (Mutex Cache) → Result CacheStrategy (Failure TopicPatternError)
  strategy_of none = ok no_cache
  strategy_of (some mutex) =
      if mutex.poisoned then err panicked else ok (lru (cache.cap mutex.inner))

  unfoldable pub cache_strategy :
      TopicPatternPath Cache → Result CacheStrategy (Failure TopicPatternError)
  cache_strategy p = strategy_of p.match_cache

  strategy_of-cache_of : (s : CacheStrategy) → strategy_of (cache_of cache s) ≡ ok s
  strategy_of-cache_of (lru n) = rw (cache.cap-empty n) refl
  strategy_of-cache_of no_cache = refl

  -- A pattern that has just been built with a cache strategy reports this strategy.
  pub cache_strategy-new_from_string :
      (pattern : Text) (strategy : CacheStrategy) (p : TopicPatternPath Cache)
      → new_from_string cache pattern strategy ≡ ok p
      → cache_strategy p ≡ ok strategy
  unfolding new_from_string cache_strategy
  cache_strategy-new_from_string pattern strategy p h =
      let (segments, valid, e) = >>=-eq-ok (validated pattern) _ h in
      subst (λ q. strategy_of q.match_cache ≡ ok strategy) (ok-injective e)
        (strategy_of-cache_of strategy)
