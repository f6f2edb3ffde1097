-- ===== src/Topic/PatternPath/Caching/Stored.antt =====
-- The pattern that a match leaves behind, with its cache.
use mqtt_typed_client_next.Base.{◌≡◌, refl, inl, inr, Option-cases, Bool-cases, Result-cases}
use mqtt_typed_client_next.Base.Text.{Text}
use mqtt_typed_client_next.Topic.Cache.{LruCache}
use mqtt_typed_client_next.Topic.TopicMatch.{TopicPath, TopicMatch}
use mqtt_typed_client_next.Topic.PatternPath.{TopicPatternPath}
use mqtt_typed_client_next.Topic.PatternPath.Matching.{try_match_internal}
use mqtt_typed_client_next.Topic.PatternPath.Binding.{resolve_bound_segments}
use mqtt_typed_client_next.Topic.PatternPath.Caching.{try_match, cached_match}

module _ (cache : LruCache Text TopicMatch) where
  open cache use {Cache}

  resolve-cached_match :
      (p : TopicPatternPath Cache) (c : Cache) (path : TopicPath)
      → resolve_bound_segments (cached_match cache p c path).1 ≡ resolve_bound_segments p
  unfolding resolve_bound_segments cached_match
  resolve-cached_match p c path = elim (Option-cases (cache.get path.path c).0) [
    | inr (m, e) ↦ rw (e, cached_match) refl
    | inl e ↦ elim (Result-cases (try_match_internal p path)) [
      | inl (m, run) ↦ rw (e, cached_match, run) refl
      | inr (f, run) ↦ rw (e, cached_match, run) refl
    ]
  ]

  pub resolve-try_match :
      (p : TopicPatternPath Cache) (path : TopicPath)
      → resolve_bound_segments (try_match cache p path).1 ≡ resolve_bound_segments p
  unfolding try_match resolve_bound_segments
  resolve-try_match p path = elim (Option-cases p.match_cache) [
    | inl e ↦ rw (e, try_match) refl
    | inr (mutex, e) ↦ elim (Bool-cases mutex.poisoned) [
      | inl b ↦ rw (e, try_match, b) refl
      | inr b ↦ rw (e, try_match, b) (resolve-cached_match p mutex.inner path)
    ]
  ]
