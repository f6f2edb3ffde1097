-- ===== src/Tests/Patterns.antt =====
-- Runs of the pattern's operations.
use mqtt_typed_client_next.Base.{ℕ, true, false, some, List, [], ◌∷◌, ok, ◌≡◌, refl, get_elem?}
use mqtt_typed_client_next.Base.Text.{
  Text, codes, split, starts_with, ends_with, contains, trim_end_matches, is_blank,
}
use mqtt_typed_client_next.Base.Map
use mqtt_typed_client_next.Topic.Item.{plus, hash, try_from, as_wildcard, param_name}
use mqtt_typed_client_next.Topic.Item.RoundTrip.{try_from-as_wildcard}
use mqtt_typed_client_next.Topic.Filter.{matches, filter_of}
use mqtt_typed_client_next.Topic.Cache.{lru}
use mqtt_typed_client_next.Topic.TopicMatch.{new, TopicMatch, get_param}
use mqtt_typed_client_next.Topic.PatternPath.{
  TopicPatternPath, new_from_string, validated, parse_segments, check_names,
  to_mqtt_subscription_pattern,
}
use mqtt_typed_client_next.Topic.PatternPath.Matching.{try_match_internal}
use mqtt_typed_client_next.Topic.PatternPath.Matching.Decides.{match_of, try_match_internal-ok}
use mqtt_typed_client_next.Topic.PatternPath.Matching.Captures.{captures, get_param-match_of}
use mqtt_typed_client_next.Topic.PatternPath.Format.{format_topic, wildcard_count}
use mqtt_typed_client_next.Topic.PatternPath.Format.RoundTrip.{match-format, shown}
use mqtt_typed_client_next.Topic.PatternPath.Validation.{validated-IsValidPattern, IsValidPattern}
use mqtt_typed_client_next.Topic.PatternPath.Binding.{resolve_bound_segments}
use mqtt_typed_client_next.Topic.PatternPath.Binding.Laws.{resolve-matches}
use mqtt_typed_client_next.Topic.PatternPath.Caching.{try_match, CacheIsSound, try_match_sound}
use mqtt_typed_client_next.Tests.{items, pattern, open_items, parts, keep_all, pattern_with}

try_from-as_wildcard_example :
    try_from (as_wildcard (hash (some (codes "id")))) ≡ ok (hash (some (codes "id")))
try_from-as_wildcard_example =
    try_from-as_wildcard (hash (some (codes "id")))
      (refl, unfold starts_with in refl, unfold ends_with in refl)

id_run : try_from (codes "{id}") ≡ ok (plus (some (codes "id")))
unfolding try_from starts_with ends_with trim_end_matches
id_run = refl

try_match_internal-ok_example :
    try_match_internal pattern (new (codes "a/7")) ≡ ok (match_of items (new (codes "a/7")))
try_match_internal-ok_example =
    try_match_internal-ok pattern (new (codes "a/7")) ((λ e. absurd (cc)), ((λ e. absurd (cc)), tt))
      (unfold new split in refl)

get_param-match_of_example :
    get_param (match_of open_items (new (codes "a/b/c"))) 0
    ≡ ok (get_elem? (captures open_items (split (codes "a/b/c"))) 0)
get_param-match_of_example = get_param-match_of open_items (codes "a/b/c") 0 (unfold split in refl)

match-format_example :
    (topic : Text) × (m : TopicMatch) × (format_topic pattern (shown (codes "7" ∷ [])) ≡ ok topic)
    × (try_match_internal pattern (new topic) ≡ ok m)
    × ((j : ℕ) → get_param m j ≡ ok (get_elem? (codes "7" ∷ []) j))
unfolding contains
match-format_example =
    match-format pattern (codes "7" ∷ []) (λ e. absurd (cc)) (refl, (refl, tt)) (refl, (tt, tt))
      (unfold wildcard_count in refl) (refl, tt)

validated_run : validated (codes "a/{id}") ≡ ok items
unfolding validated parse_segments try_from check_names split is_blank param_name starts_with
    ends_with trim_end_matches contains
validated_run = refl

validated-IsValidPattern_example : IsValidPattern (codes "a/{id}") items
validated-IsValidPattern_example = validated-IsValidPattern (codes "a/{id}") items validated_run

abbrev bound : TopicPatternPath ℕ
bound = record pattern { parameter_bindings = some ((codes "id", codes "7") ∷ []) }

resolve-matches_example : matches (filter_of items) parts ≡ true
resolve-matches_example = resolve-matches bound parts (unfold resolve_bound_segments in refl)

abbrev cached : TopicPatternPath (ℕ × List (Text × TopicMatch))
cached = record (pattern_with (ℕ × List (Text × TopicMatch)) items) {
  match_cache = some (record { poisoned = false; inner = (4, []) });
}

try_match_sound_example :
    ((try_match keep_all cached (new (codes "a/7"))).0
      ≡ try_match_internal cached (new (codes "a/7")))
    × CacheIsSound keep_all (try_match keep_all cached (new (codes "a/7"))).1
try_match_sound_example =
    try_match_sound keep_all cached (codes "a/7")
      (refl, λ path m h. absurd (unfold Map.lookup in cc))

new_from_string_run : new_from_string keep_all (codes "a/{id}") (lru 4) ≡ ok cached
unfolding new_from_string validated is_blank parse_segments split try_from starts_with contains
    ends_with trim_end_matches check_names param_name to_mqtt_subscription_pattern
new_from_string_run = refl
