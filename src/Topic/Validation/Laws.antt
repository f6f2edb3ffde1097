-- ===== src/Topic/Validation/Laws.antt =====
-- Which texts the checks accept.
use mqtt_typed_client_next.Base.{
  ℕ, ◌+◌, ◌≤◌, true, false, List, [], ◌∷◌, ok, length, any, All, ◌≡◌, refl, ◌↔◌, arith,
}
use mqtt_typed_client_next.Base.Text.{Text, is_empty, split}
use mqtt_typed_client_next.Topic.Validation.{
  validate_segments, validate_topic_path, validate_mqtt_topic, valid, has_null, is_ascii,
  max_topic_depth, max_segment_length, max_topic_length, is_illegal,
}

-- A segment that the check accepts.
abbrev pub SegmentOk : Text → Type 0
SegmentOk s = (length s ≤ max_segment_length) × (has_null s ≡ false)

validate_segments-ok :
    (segments : List Text) (index : ℕ)
    → (validate_segments segments index ≡ ok valid) ↔ All SegmentOk segments
unfolding validate_segments
validate_segments-ok [] index = ((λ h. tt), λ u. refl)
validate_segments-ok (s ∷ segments) index =
    let ih = validate_segments-ok segments (index + 1) in
    (
      λ h. ((ground arith, ground arith), ih.0 (ground arith)),
      λ (a, b). let length_ok = a.0 in let null_ok = a.1 in let rest = ih.1 b in ground arith,
    )

-- `validate_topic_path` accepts exactly the ASCII texts of 1 to 1024 bytes with at most 32 segments,
-- each of at most 256 bytes and without a null byte.
pub validate_topic_path-ok :
    (path : Text)
    → (validate_topic_path path ≡ ok valid) ↔ (
        (is_empty path ≡ false)
        × (length path ≤ max_topic_length)
        × (is_ascii path ≡ true)
        × (length (split path) ≤ max_topic_depth)
        × All SegmentOk (split path))
unfolding validate_topic_path
validate_topic_path-ok path =
    let segs = validate_segments-ok (split path) 0 in
    (
      λ h. (ground arith, ground arith, ground arith, ground arith, segs.0 (ground arith)),
      λ (a, b, c, d, e). let all_ok = segs.1 e in ground arith,
    )

-- `validate_mqtt_topic` accepts exactly the texts of 1 to 65535 bytes without a null byte, `#` or `+`.
pub validate_mqtt_topic-ok :
    (topic : Text)
    → (validate_mqtt_topic topic ≡ ok valid)
      ↔ ((1 ≤ length topic) × (length topic ≤ 65535) × (any is_illegal topic ≡ false))
unfolding validate_mqtt_topic
validate_mqtt_topic-ok [] = ((λ h. absurd (cc)), λ (a, b, c). absurd (omega arith))
validate_mqtt_topic-ok (x ∷ topic) =
    (λ h. (omega arith, ground arith, ground arith), λ (a, b, c). ground arith)
