-- ===== src/Topic/Filter.antt =====
-- The meaning of a topic filter, independent of patterns and of the trie: what the MQTT rules for
-- literals, `+` and `#` say of a list of segments.
pub mod Enumeration
pub mod Distinct
use mqtt_typed_client_next.Base.{
  Bool, true, false, ◌&&◌, ◌≡◌, refl, ◌↔◌, ap, arith, List, [], ◌∷◌, Eq, ◌==◌,
}
use mqtt_typed_client_next.Base.Text.{Text, text_eq, text_eq_iff}
use mqtt_typed_client_next.Topic.Item.{TopicPatternItem, str, plus, hash}

-- `finish` is the end of the filter, and `multi` is `#`, behind which nothing may stand.
pub data TopicFilter : Type 0 where
  finish multi : TopicFilter
  level : Text → TopicFilter → TopicFilter
  single : TopicFilter → TopicFilter

-- The filter that a pattern's segments stand for: names do not count, and `#` ends it.
abbrev pub filter_of : List TopicPatternItem → TopicFilter
filter_of [] = finish
filter_of (str s ∷ rest) = level s (filter_of rest)
filter_of (plus _ ∷ rest) = single (filter_of rest)
filter_of (hash _ ∷ rest) = multi

-- `#` also matches the level above it.
abbrev pub matches : TopicFilter → List Text → Bool
matches finish [] = true
matches finish (s ∷ topic) = false
matches multi topic = true
matches (level t f) [] = false
matches (level t f) (s ∷ topic) = text_eq t s && matches f topic
matches (single f) [] = false
matches (single f) (s ∷ topic) = matches f topic

abbrev pub filter_eq : TopicFilter → TopicFilter → Bool
filter_eq finish finish = true
filter_eq multi multi = true
filter_eq (level s f) (level t g) = text_eq s t && filter_eq f g
filter_eq (single f) (single g) = filter_eq f g
filter_eq _ _ = false

filter_eq→eq : (f g : TopicFilter) → filter_eq f g ≡ true → f ≡ g
filter_eq→eq finish finish h = refl
filter_eq→eq multi multi h = refl
filter_eq→eq (level s f) (level t g) h = ground (arith, text_eq_iff s t, filter_eq→eq f g)
filter_eq→eq (single f) (single g) h = ap single (filter_eq→eq f g h)
filter_eq→eq _ _ h = cc

filter_eq_refl : (f : TopicFilter) → filter_eq f f ≡ true
filter_eq_refl finish = refl
filter_eq_refl multi = refl
filter_eq_refl (level s f) = ground (arith, text_eq_iff s s, filter_eq_refl f)
filter_eq_refl (single f) = filter_eq_refl f

pub filter_eq_iff : (f g : TopicFilter) → (filter_eq f g ≡ true) ↔ (f ≡ g)
filter_eq_iff f g = (filter_eq→eq f g, λ e. rw e (filter_eq_refl g))

instance abbrev pub filter_Eq : Eq TopicFilter
filter_Eq = record { beq = filter_eq; beq_iff = filter_eq_iff }
