-- ===== src/Topic/PatternPath/Caching.antt =====
-- `try_match`, `with_cache_strategy` and `clone` of topic_pattern_path.rs: the match cache.
pub mod Stored
use mqtt_typed_client_next.Base.{
  false, Option, none, some, Result, ok, err, ◌≡◌, refl, if◌then◌else◌, Failure, panicked, inl, inr,
  Option-cases, Result-cases, >>=-eq-ok, ok-injective, sym, ◌∙◌,
}
use mathlib.Core.Path.{subst}
use mqtt_typed_client_next.Base.Text.{Text}
use mqtt_typed_client_next.Topic.Item.{TopicPatternError}
use mqtt_typed_client_next.Topic.Cache.{CacheStrategy, lru, no_cache, LruCache, Mutex}
use mqtt_typed_client_next.Topic.TopicMatch.{
  TopicPath, TopicMatch, TopicMatchError, cache_poisoned, new,
}
use mqtt_typed_client_next.Topic.PatternPath.{
  TopicPatternPath, new_from_string, cache_of, validated, to_mqtt_subscription_pattern,
}
use mqtt_typed_client_next.Topic.PatternPath.Matching.{try_match_internal}

module _ (cache : LruCache Text TopicMatch) where
  open cache use {Cache}

  abbrev with_cache : TopicPatternPath Cache → Cache → TopicPatternPath Cache
  with_cache p c = record p { match_cache = some (record { poisoned = false; inner = c }) }

  -- A result that was computed is stored before it is returned; an error is not stored.
  abbrev store :
      TopicPatternPath Cache
      → Cache
      → TopicPath
      → Result TopicMatch TopicMatchError
      → Result TopicMatch TopicMatchError × TopicPatternPath Cache
  store p c topic (err e) = (err e, with_cache p c)
  store p c topic (ok m) = (ok m, with_cache p (cache.put topic.path m c))

  cached_match :
      TopicPatternPath Cache
      → Cache
      → TopicPath
      → Result TopicMatch TopicMatchError × TopicPatternPath Cache
  cached_match p c topic = elim (cache.get topic.path c).0 [
    | some m ↦ (ok m, with_cache p (cache.get topic.path c).1)
    | none ↦ store p (cache.get topic.path c).1 topic (try_match_internal p topic)
  ]

  -- The result, and the pattern with its cache as it is afterwards.
  unfoldable pub try_match :
      TopicPatternPath Cache
      → TopicPath
      → Result TopicMatch TopicMatchError × TopicPatternPath Cache
  unfolding cached_match
  try_match p topic = elim p.match_cache [
    | none ↦ (try_match_internal p topic, p)
    | some mutex ↦
        if mutex.poisoned then (err cache_poisoned, p) else cached_match p mutex.inner topic
  ]

  -- Every match in the cache is what the matcher returns for its topic.
  abbrev pub Hits : TopicPatternPath Cache → Cache → Type 0
  Hits p c =
      (path : Text) (m : TopicMatch)
      → (cache.get path c).0 ≡ some m
      → try_match_internal p (new path) ≡ ok m

  abbrev pub SoundCache : TopicPatternPath Cache → Option (Mutex Cache) → Type 0
  SoundCache p none = Unit
  SoundCache p (some mutex) = (mutex.poisoned ≡ false) × Hits p mutex.inner

  abbrev pub CacheIsSound : TopicPatternPath Cache → Type 0
  CacheIsSound p = SoundCache p p.match_cache

  internal-with_cache :
      (p : TopicPatternPath Cache) (c : Cache) (topic : TopicPath)
      → try_match_internal (with_cache p c) topic ≡ try_match_internal p topic
  unfolding try_match_internal
  internal-with_cache p c topic = refl

  Hits-with_cache : (p : TopicPatternPath Cache) (c d : Cache) → Hits p d → Hits (with_cache p c) d
  Hits-with_cache p c d h path m e = internal-with_cache p c (new path) ∙ h path m e

  module _ (p : TopicPatternPath Cache) (c : Cache) (path : Text) (hits : Hits p c) where
    Hits-get : Hits p (cache.get path c).1
    Hits-get other m e = hits other m (sym (cache.get-get other path c) ∙ e)

    Hits-put :
        (m : TopicMatch)
        → try_match_internal p (new path) ≡ ok m
        → Hits p (cache.put path m (cache.get path c).1)
    Hits-put m run other w e = elim (cache.get-put other path m w (cache.get path c).1 e) [
      | inl (same, value) ↦ rw (same, value) run
      | inr old ↦ Hits-get other w old
    ]

    cached_match-lem :
        ((cached_match p c (new path)).0 ≡ try_match_internal p (new path))
        × CacheIsSound (cached_match p c (new path)).1
    unfolding cached_match new
    cached_match-lem = elim (Option-cases (cache.get path c).0) [
      | inr (m, e) ↦
          rw (e, cached_match)
            (
              sym (hits path m e),
              (refl, Hits-with_cache p (cache.get path c).1 (cache.get path c).1 Hits-get),
            )
      | inl e ↦ elim (Result-cases (try_match_internal p (new path))) [
        | inl (m, run) ↦
            rw (e, cached_match, run)
              (
                refl,
                (
                  refl,
                  Hits-with_cache p _ (cache.put path m (cache.get path c).1) (Hits-put m run),
                ),
              )
        | inr (x, run) ↦
            rw (e, cached_match, run)
              (refl, (refl, Hits-with_cache p _ (cache.get path c).1 Hits-get))
      ]
    ]

  try_match_cases :
      (p : TopicPatternPath Cache) (o : Option (Mutex Cache)) (path : Text)
      → p.match_cache ≡ o
      → SoundCache p o
      → ((try_match p (new path)).0 ≡ try_match_internal p (new path))
        × CacheIsSound (try_match p (new path)).1
  unfolding try_match try_match_internal
  try_match_cases p none path e sound = rw e (refl, tt)
  try_match_cases p (some mutex) path e (open_lock, hits) =
      rw (e, try_match, open_lock) (cached_match-lem p mutex.inner path hits)

  -- With a sound cache, or none, a match has the result of the matcher, whether it is found in the
  -- cache or computed, and it leaves a sound cache.
  pub try_match_sound :
      (p : TopicPatternPath Cache) (path : Text)
      → CacheIsSound p
      → ((try_match p (new path)).0 ≡ try_match_internal p (new path))
        × CacheIsSound (try_match p (new path)).1
  try_match_sound p path sound = try_match_cases p p.match_cache path refl sound

  fresh-SoundCache :
      (q : TopicPatternPath Cache) (s : CacheStrategy) → SoundCache q (cache_of cache s)
  fresh-SoundCache q (lru n) = (refl, λ path m k. absurd (cc (cache.get-empty path n)))
  fresh-SoundCache q no_cache = tt

  -- A pattern that has just been built has a sound cache, and its segments are those that its text
  -- is validated to.
  pub new_from_string-CacheIsSound :
      (pattern : Text) (strategy : CacheStrategy) (p : TopicPatternPath Cache)
      → new_from_string cache pattern strategy ≡ ok p
      → CacheIsSound p × (validated pattern ≡ ok p.segments)
  unfolding new_from_string
  new_from_string-CacheIsSound pattern strategy p h =
      let (segments, valid, e) = >>=-eq-ok (validated pattern) _ h in
      subst (λ q. CacheIsSound q × (validated pattern ≡ ok q.segments)) (ok-injective e)
        (fresh-SoundCache _ strategy, valid)

  -- The `expect` on the pattern's own text.
  unfoldable pub with_cache_strategy :
      TopicPatternPath Cache
      → CacheStrategy
      → Result (TopicPatternPath Cache) (Failure TopicPatternError)
  unfolding new_from_string
  with_cache_strategy p strategy = elim (new_from_string cache p.template_pattern strategy) [
    | ok q ↦ ok (record q { parameter_bindings = p.parameter_bindings })
    | err e ↦ err panicked
  ]

  -- A pattern whose segments are those its text is validated to can be given another cache: there is no panic,
  -- the text, the segments and the bindings stay, and the new cache is sound.
  pub with_cache_strategy-ok :
      (p : TopicPatternPath Cache) (strategy : CacheStrategy)
      → validated p.template_pattern ≡ ok p.segments
      → (q : TopicPatternPath Cache) × (with_cache_strategy p strategy ≡ ok q)
        × (q.template_pattern ≡ p.template_pattern)
        × (q.segments ≡ p.segments)
        × (q.parameter_bindings ≡ p.parameter_bindings)
        × CacheIsSound q
  unfolding with_cache_strategy
  with_cache_strategy-ok p strategy h =
      let q : TopicPatternPath Cache = record {
        template_pattern = p.template_pattern;
        mqtt_topic_subscription = to_mqtt_subscription_pattern p.segments;
        segments = p.segments;
        match_cache = cache_of cache strategy;
        parameter_bindings = p.parameter_bindings;
      } in
      (q, rw (h, with_cache_strategy), refl, refl, refl, fresh-SoundCache q strategy)

  -- `Clone`: a new cache of the same capacity; a poisoned lock is a panic.
  unfoldable pub clone :
      TopicPatternPath Cache → Result (TopicPatternPath Cache) (Failure TopicPatternError)
  clone p = elim p.match_cache [
    | none ↦ ok p
    | some mutex ↦
        if mutex.poisoned
        then err panicked
        else ok (with_cache p (cache.empty (cache.cap mutex.inner)))
  ]
