-- ===== src/Topic/PatternPath/Format.antt =====
-- `format_topic` of topic_pattern_path.rs: the topic for a list of displayed parameters. A
-- parameter is the text that its `Display` writes, or `none` where that fails.
pub mod RoundTrip
use mqtt_typed_client_next.Base.{
  ℕ, zero, suc, ◌+◌, Bool, true, false, Option, none, some, List, [], ◌∷◌, ◌++◌, map, length,
  get_elem?, nat_eq, if◌then◌else◌, Result, ok, err, Failure, panicked, failed,
}
use mqtt_typed_client_next.Base.Text.{Text}
use mqtt_typed_client_next.Topic.Item.{TopicPatternItem, str, plus, hash, is_wildcard}
use mqtt_typed_client_next.Topic.PatternPath.{
  TopicPatternPath, TopicFormatError, hash_wildcard_not_supported, format_error,
  parameter_count_mismatch,
}

-- `.iter().filter(|s| s.is_wildcard()).count()`.
unfoldable pub wildcard_count : List TopicPatternItem → ℕ
unfolding is_wildcard
wildcard_count [] = 0
wildcard_count (item ∷ rest) = let n = wildcard_count rest in if is_wildcard item then suc n else n

-- No slash stands before the first segment.
abbrev pub separated : Bool → Text → Text
separated true result = result
separated false result = result ++ b'/' ∷ []

unfoldable pub format_loop :
    Bool
    → List TopicPatternItem
    → List (Option Text)
    → ℕ
    → Text
    → Result Text (Failure TopicFormatError)
format_loop first [] params param_index result = ok result
format_loop first (str s ∷ rest) params param_index result =
    format_loop false rest params param_index (separated first result ++ s)
format_loop first (plus _ ∷ rest) params param_index result = elim (get_elem? params param_index) [
  | none ↦ err panicked
  | some none ↦ err (failed format_error)
  | some (some t) ↦ format_loop false rest params (param_index + 1) (separated first result ++ t)
]
format_loop first (hash _ ∷ rest) params param_index result =
    err (failed hash_wildcard_not_supported)

unfoldable pub format_topic :
    {C : Type 0} → TopicPatternPath C → List (Option Text) → Result Text (Failure TopicFormatError)
unfolding wildcard_count format_loop
format_topic p params =
    let count = wildcard_count p.segments in
    if nat_eq (length params) count
    then format_loop true p.segments params 0 []
    else err (failed (parameter_count_mismatch count (length params)))
