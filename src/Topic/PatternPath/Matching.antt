-- ===== src/Topic/PatternPath/Matching.antt =====
-- `try_match_internal` of topic_pattern_path.rs: a topic is matched segment by segment.
pub mod Decides
pub mod Captures
use mqtt_typed_client_next.Base.{
  ℕ, ◌+◌, Bool, true, false, not, Option, none, some, List, [], ◌∷◌, ◌++◌, length, get_elem?, ltb,
  if◌then◌else◌, Result, ok, err, ◌==◌,
}
use mqtt_typed_client_next.Base.Text.{Text, text_Eq, is_empty}
use mqtt_typed_client_next.Topic.Item.{TopicPatternItem, str, plus, hash}
use mqtt_typed_client_next.Topic.TopicMatch.{
  TopicPath, TopicMatch, Range, TopicMatchError, unexpected_end_of_pattern, unexpected_end_of_topic,
  unexpected_hash_segment, segment_mismatch,
}
use mqtt_typed_client_next.Topic.PatternPath.{TopicPatternPath}

abbrev pub push_named : Option Text → Range → List (Text × Range) → List (Text × Range)
push_named none range named_params = named_params
push_named (some name) range named_params = named_params ++ (name, range) ∷ []

-- The loop over the pattern's segments. `i < len - 1` says that segments are left.
unfoldable pub match_loop :
    TopicPath
    → List TopicPatternItem
    → ℕ
    → List Range
    → List (Text × Range)
    → Result TopicMatch TopicMatchError
match_loop topic [] topic_index params named_params =
    if ltb topic_index (length topic.segments)
    then err unexpected_end_of_pattern
    else ok (record { topic = topic; params = params; named_params = named_params })
match_loop topic (str expected ∷ rest) topic_index params named_params =
    elim (get_elem? topic.segments topic_index) [
      | none ↦ err unexpected_end_of_topic
      | some found ↦
          if not (found.text == expected)
          then err (segment_mismatch expected found.text topic_index)
          else match_loop topic rest (topic_index + 1) params named_params
    ]
match_loop topic (plus opt_name ∷ rest) topic_index params named_params =
    elim (get_elem? topic.segments topic_index) [
      | none ↦ err unexpected_end_of_topic
      | some found ↦
          let range : Range = (topic_index, topic_index + 1) in
          match_loop topic rest (topic_index + 1) (params ++ range ∷ [])
            (push_named opt_name range named_params)
    ]
match_loop topic (hash opt_name ∷ rest) topic_index params named_params =
    let range : Range = (topic_index, length topic.segments) in
    if not (is_empty rest)
    then err unexpected_hash_segment
    else ok (record {
      topic = topic;
      params = params ++ range ∷ [];
      named_params = push_named opt_name range named_params;
    })

unfoldable pub try_match_internal :
    {C : Type 0} → TopicPatternPath C → TopicPath → Result TopicMatch TopicMatchError
unfolding match_loop
try_match_internal p topic = match_loop topic p.segments 0 [] []
