-- ===== src/Topic/PatternPath.antt =====
-- mqtt-topic-engine/src/topic_pattern_path.rs. A pattern carries the state of its match cache, of
-- the type `C`; a call that may change the cache returns the pattern anew.
pub mod Matching
pub mod Format
pub mod Validation
pub mod Binding
pub mod Caching
pub mod Access
use mqtt_typed_client_next.Base.{
  ℕ, zero, suc, ◌+◌, ◌-◌, Bool, true, false, not, ◌&&◌, ◌||◌, Option, none, some, List, [], ◌∷◌,
  ◌++◌, map, length, get_elem?, any, nat_eq, if◌then◌else◌, Result, ok, err, ◌>>=◌, ◌>>◌, ◌==◌,
  Failure, panicked, failed,
}
use mathlib.Core.Option
use mqtt_typed_client_next.Base.Map
use mqtt_typed_client_next.Base.Text.{Text, text_Eq, is_empty, is_blank, split, join, codes}
use mqtt_typed_client_next.Topic.Item.{
  TopicPatternItem, str, plus, hash, TopicPatternError, wildcard_usage, empty_topic, hash_position,
  pattern_structure_mismatch, try_from, as_str, param_name, is_wildcard,
}
use mqtt_typed_client_next.Topic.Cache.{CacheStrategy, lru, no_cache, LruCache, Mutex}
use mqtt_typed_client_next.Topic.TopicMatch.{
  TopicPath, TopicMatch, Range, Substr, TopicMatchError, cache_poisoned, unexpected_end_of_pattern,
  unexpected_end_of_topic, unexpected_hash_segment, segment_mismatch,
}

pub data TopicFormatError : Type 0 where
  hash_wildcard_not_supported format_error : TopicFormatError
  parameter_count_mismatch : (expected provided : ℕ) → TopicFormatError

pub record TopicPatternPath (C : Type 0) : Type 0 where
  pub template_pattern : Text
  pub mqtt_topic_subscription : Text
  pub segments : List TopicPatternItem
  pub match_cache : Option (Mutex C)
  pub parameter_bindings : Option (List (Text × Text))

-- `.map(TopicPatternItem::try_from).collect::<Result<Vec<_>, _>>()`: the first error stops it.
unfoldable pub parse_segments : List Text → Result (List TopicPatternItem) TopicPatternError
parse_segments [] = ok []
parse_segments (s ∷ parts) = do item ← try_from s; items ← parse_segments parts; ok (item ∷ items)

abbrev pub is_named : Text → List Text → Bool
is_named name seen = any (λ n. n == name) seen

-- The loop over `seen_names`.
unfoldable pub check_names : List Text → List TopicPatternItem → Result (Unit {0}) TopicPatternError
check_names seen [] = ok tt
check_names seen (segment ∷ rest) = elim (param_name segment) [
  | none ↦ check_names seen rest
  | some name ↦
      if is_named name seen
      then err (wildcard_usage (as_str segment))
      else check_names (name ∷ seen) rest
]

abbrev pub is_hash : TopicPatternItem → Bool
is_hash (hash _) = true
is_hash _ = false

-- `.iter().position(…)`.
unfoldable pub position {ℓ} : {A : Type ℓ} → (A → Bool) → List A → Option ℕ
position p [] = none
position p (x ∷ xs) = if p x then some 0 else Option.map suc (position p xs)

-- A `#` that is not the last segment is refused.
unfoldable pub check_hash : Text → List TopicPatternItem → Result (Unit {0}) TopicPatternError
unfolding position
check_hash pattern segments = elim (position is_hash segments) [
  | none ↦ ok tt
  | some hash_pos ↦
      if nat_eq hash_pos (length segments - 1) then ok tt else err (hash_position pattern)
]

unfoldable pub to_mqtt_subscription_pattern : List TopicPatternItem → Text
unfolding join as_str
to_mqtt_subscription_pattern segments = join (map as_str segments)

-- The parsed and validated segments of a pattern.
unfoldable pub validated : Text → Result (List TopicPatternItem) TopicPatternError
unfolding check_hash
validated pattern = if is_empty pattern || is_blank pattern then err empty_topic else do
  segments ← parse_segments (split pattern)
  check_names [] segments
  check_hash pattern segments
  ok segments

module _ (cache : LruCache Text TopicMatch) where
  open cache use {Cache}

  abbrev pub cache_of : CacheStrategy → Option (Mutex Cache)
  cache_of (lru size) = some (record { poisoned = false; inner = cache.empty size })
  cache_of no_cache = none

  unfoldable pub new_from_string :
      Text → CacheStrategy → Result (TopicPatternPath Cache) TopicPatternError
  new_from_string pattern strategy = do
    segments ← validated pattern
    ok (record {
      template_pattern = pattern;
      mqtt_topic_subscription = to_mqtt_subscription_pattern segments;
      segments = segments;
      match_cache = cache_of strategy;
      parameter_bindings = none;
    })
