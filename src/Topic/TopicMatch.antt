-- ===== src/Topic/TopicMatch.antt =====
-- mqtt-topic-engine/src/topic_match.rs: a topic with its segments, and what a match captured.
use mqtt_typed_client_next.Base.{
  ℕ, ◌+◌, ◌-◌, Option, none, some, List, [], ◌∷◌, map, length, take, drop, get_elem?, leb, nat_eq,
  if◌then◌else◌, Result, ok, err, ◌>>=◌,
}
use mqtt_typed_client_next.Base.Map
use mqtt_typed_client_next.Base.Text.{Text, text_Eq, split}

-- A slice of the topic: where it begins, and its bytes.
pub record Substr : Type 0 where
  pub start : ℕ
  pub text : Text

pub record TopicPath : Type 0 where
  pub path : Text
  pub segments : List Substr

abbrev pub spans : ℕ → List Text → List Substr
spans start [] = []
spans start (s ∷ parts) = record { start = start; text = s } ∷ spans (start + length s + 1) parts

unfoldable pub new : Text → TopicPath
new path = record { path = path; segments = spans 0 (split path) }

abbrev pub texts : TopicPath → List Text
texts topic = map (λ s. s.text) topic.segments

pub data TopicMatchError : Type 0 where
  cache_poisoned unexpected_end_of_pattern unexpected_end_of_topic : TopicMatchError
  unexpected_hash_segment duplicate_parameter_name : TopicMatchError
  segment_mismatch : (expected found : Text) (position : ℕ) → TopicMatchError

-- `Range<usize>`: its start and its end.
abbrev pub Range : Type 0
Range = ℕ × ℕ

pub record TopicMatch : Type 0 where
  pub topic : TopicPath
  pub params : List Range
  pub named_params : List (Text × Range)

pub data Panic : Type 0 where
  index_out_of_bounds : Panic

-- `segments[i]`.
abbrev pub index {ℓ} : {A : Type ℓ} → List A → ℕ → Result A Panic
index xs i = elim (get_elem? xs i) [ none ↦ err index_out_of_bounds | some a ↦ ok a ]

-- `path.substr(from .. to)`.
abbrev pub substr : Text → ℕ → ℕ → Text
substr path from to = take (to - from) (drop from path)

unfoldable pub get_param_range : TopicMatch → Range → Result Text Panic
get_param_range m (start, stop) =
    if leb stop start
    then ok (substr m.topic.path 0 0)
    else if nat_eq (stop - start) 1
    then (do s ← index m.topic.segments start; ok s.text)
    else do
      first ← index m.topic.segments start
      last ← index m.topic.segments (stop - 1)
      ok (substr m.topic.path first.start (last.start + length last.text))

abbrev optional : TopicMatch → Option Range → Result (Option Text) Panic
optional m none = ok none
optional m (some range) = do t ← get_param_range m range; ok (some t)

unfoldable pub get_param : TopicMatch → ℕ → Result (Option Text) Panic
unfolding get_param_range
get_param m i = optional m (get_elem? m.params i)

unfoldable pub get_named_param : TopicMatch → Text → Result (Option Text) Panic
unfolding get_param_range
get_named_param m name = optional m (Map.lookup name m.named_params)
