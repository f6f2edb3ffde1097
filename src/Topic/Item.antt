-- ===== src/Topic/Item.antt =====
-- mqtt-topic-engine/src/topic_pattern_item.rs: one segment of a pattern, its parser and printers.
pub mod RoundTrip
pub mod Parsed
use mqtt_typed_client_next.Base.{
  Bool, true, false, ◌&&◌, ◌||◌, Option, none, some, ◌++◌, Result, ok, err, ◌==◌, if◌then◌else◌,
}
use mqtt_typed_client_next.Base.Text.{
  Text, text_Eq, codes, is_empty, starts_with, ends_with, trim_start_matches, trim_end_matches,
  contains,
}

pub data TopicPatternError : Type 0 where
  hash_position : Text → TopicPatternError
  wildcard_usage : Text → TopicPatternError
  empty_topic : TopicPatternError
  pattern_structure_mismatch : (original custom : Text) → TopicPatternError

pub data TopicPatternItem : Type 0 where
  str : Text → TopicPatternItem
  plus : Option Text → TopicPatternItem
  hash : Option Text → TopicPatternItem

unfoldable pub as_str : TopicPatternItem → Text
as_str (str s) = s
as_str (plus _) = codes "+"
as_str (hash _) = codes "#"

unfoldable pub as_wildcard : TopicPatternItem → Text
as_wildcard (plus none) = codes "+"
as_wildcard (hash none) = codes "#"
as_wildcard (plus (some name)) = codes "{" ++ (name ++ codes "}")
as_wildcard (hash (some name)) = codes "{" ++ (name ++ codes ":#}")
as_wildcard (str s) = s

unfoldable pub param_name : TopicPatternItem → Option Text
param_name (plus (some name)) = some name
param_name (hash (some name)) = some name
param_name _ = none

unfoldable pub is_wildcard : TopicPatternItem → Bool
is_wildcard (str _) = false
is_wildcard (plus _) = true
is_wildcard (hash _) = true

-- The name between the braces, and an error where nothing is left of it.
named : (Option Text → TopicPatternItem) → Text → Text → Result TopicPatternItem TopicPatternError
named wildcard item inner =
    if is_empty inner then err (wildcard_usage item) else ok (wildcard (some inner))

-- `TryFrom<Substr>`, its match arms in order.
unfoldable pub try_from : Text → Result TopicPatternItem TopicPatternError
unfolding named
try_from item =
    if item == codes "+"
    then ok (plus none)
    else if item == codes "#"
    then ok (hash none)
    else if starts_with item (codes "{") && ends_with item (codes ":#}")
    then named hash item (trim_end_matches (trim_start_matches item (codes "{")) (codes ":#}"))
    else if starts_with item (codes "{") && ends_with item (codes "}")
    then named plus item (trim_end_matches (trim_start_matches item (codes "{")) (codes "}"))
    else if contains item b'+' || contains item b'#'
    then err (wildcard_usage item)
    else ok (str item)
