-- ===== src/Topic/Validation.antt =====
-- The checks of mqtt-topic-engine/src/error.rs and `validate_mqtt_topic` of
-- core/src/client/async_client.rs. A text is a list of bytes; the message of an error is left out
-- where the code formats one.
pub mod Laws
use mqtt_typed_client_next.Base.{
  ℕ, ◌+◌, Bool, true, false, ◌||◌, not, List, [], ◌∷◌, Result, ok, err, if◌then◌else◌, length, any,
  all, ltb, ◌==◌, nat_Eq,
}
use mqtt_typed_client_next.Base.Text.{Text, codes, is_empty, is_blank, split}
use mqtt_typed_client_next.Topic.Item.{TopicPatternError, empty_topic, wildcard_usage}
use mqtt_typed_client_next.Topic.Matcher.{
  TopicMatcherError, empty_topic_path, invalid_segment, invalid_utf8,
}
use mqtt_typed_client_next.Topic.Router.{TopicRouterError, invalid_routing_topic}

abbrev pub max_topic_depth : ℕ
max_topic_depth = 32

abbrev pub max_segment_length : ℕ
max_segment_length = 256

abbrev pub max_topic_length : ℕ
max_topic_length = 1024

pub data Valid : Type 0 where
  valid : Valid

-- `is_ascii` on the bytes.
abbrev pub is_ascii : Text → Bool
is_ascii path = all (λ b. ltb b 128) path

abbrev pub has_null : Text → Bool
has_null segment = any (λ b. b == 0) segment

-- The loop over the segments from `index` on.
unfoldable pub validate_segments : List Text → ℕ → Result Valid TopicMatcherError
validate_segments [] index = ok valid
validate_segments (segment ∷ segments) index =
    let rest = validate_segments segments (index + 1) in
    if ltb max_segment_length (length segment)
    then err (invalid_segment segment index)
    else if has_null segment
    then err (invalid_segment segment index)
    else rest

unfoldable pub validate_topic_path : Text → Result Valid TopicMatcherError
unfolding validate_segments
validate_topic_path path =
    let segments = split path in
    if is_empty path
    then err empty_topic_path
    else if ltb max_topic_length (length path)
    then err invalid_utf8
    else if not (is_ascii path)
    then err invalid_utf8
    else if ltb max_topic_depth (length segments)
    then err (invalid_segment path 0)
    else validate_segments segments 0

unfoldable pub validate_pattern_for_subscription : Text → Result Valid TopicPatternError
validate_pattern_for_subscription pattern =
    if is_empty pattern || is_blank pattern
    then err empty_topic
    else if ltb max_topic_depth (length (split pattern))
    then err (wildcard_usage pattern)
    else ok valid

-- A null byte, `#` or `+`.
abbrev pub is_illegal : ℕ → Bool
is_illegal c = (c == 0) || (c == 35) || (c == 43)

unfoldable pub validate_mqtt_topic : Text → Result Valid TopicRouterError
validate_mqtt_topic topic_str =
    if is_empty topic_str || ltb 65535 (length topic_str)
    then err (invalid_routing_topic topic_str (codes "Topic is empty or too long"))
    else if any is_illegal topic_str
    then err (
        invalid_routing_topic topic_str
          (codes "Topic contains illegal characters ('#', '+', or null byte)"))
    else ok valid
