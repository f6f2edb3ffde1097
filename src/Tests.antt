-- ===== src/Tests.antt =====
-- Sample data for the concrete runs below this module.
pub mod Patterns
pub mod Routers
pub mod Clients
pub mod Managers
pub mod Connections
pub mod OptionsV5
pub mod Macros
pub mod Typed
use mqtt_typed_client_next.Base.{
  ℕ, Bool, true, false, Option, none, some, List, [], ◌∷◌, ◌≡◌, refl, arith, inl, inr, ◌⊎◌,
  Bool-cases, if◌then◌else◌, ◌==◌, ◌∙◌, sym,
}
use mathlib.Core.Option.{some-injective}
use mqtt_typed_client_next.Base.Map
use mqtt_typed_client_next.Base.Map.{lookup-insert}
use mqtt_typed_client_next.Base.Text.{Text, codes, text_Eq, text_eq_iff}
use mqtt_typed_client_next.Topic.Item.{TopicPatternItem, str, plus, hash}
use mqtt_typed_client_next.Topic.Cache.{LruCache}
use mqtt_typed_client_next.Topic.TopicMatch.{TopicMatch}
use mqtt_typed_client_next.Topic.PatternPath.{TopicPatternPath}

-- `a/{id}`.
abbrev pub items : List TopicPatternItem
items = str (codes "a") ∷ plus (some (codes "id")) ∷ []

abbrev pub pattern_with : (C : Type 0) → List TopicPatternItem → TopicPatternPath C
pattern_with C segments = record {
  template_pattern = codes "a/{id}";
  mqtt_topic_subscription = codes "a/+";
  segments = segments;
  match_cache = none;
  parameter_bindings = none;
}

abbrev pub pattern : TopicPatternPath ℕ
pattern = pattern_with ℕ items

-- `a/{rest:#}`.
abbrev pub open_items : List TopicPatternItem
open_items = str (codes "a") ∷ hash (some (codes "rest")) ∷ []

-- `a/7`.
abbrev pub parts : List Text
parts = codes "a" ∷ codes "7" ∷ []

pub found_after_put :
    {V : Type 0} (j k : Text) (v w : V) (m : List (Text × V))
    → Map.lookup j (Map.insert k v m) ≡ some w
    → ((j ≡ k) × (w ≡ v)) ⊎ (Map.lookup j m ≡ some w)
found_after_put j k v w m h = elim (Bool-cases (k == j)) [
  | inl same ↦
      let e = (text_eq_iff k j).0 same in
      inl (sym e, sym (some-injective v w (rw same at (sym (lookup-insert j k v m) ∙ h))))
  | inr other ↦ inr (rw other at (sym (lookup-insert j k v m) ∙ h))
]

pub found_in_empty : (V : Type 0) (k : Text) (n : ℕ) → ◌≡◌ {A = Option V} (Map.lookup k []) none
unfolding Map.lookup
found_in_empty V k n = refl

-- A cache that drops nothing.
abbrev pub keep : (V : Type 0) → LruCache Text V
keep V = record {
  Cache = ℕ × List (Text × V);
  empty = λ n. (n, []);
  cap = λ c. c.0;
  get = λ k c. (Map.lookup k c.1, c);
  put = λ k v c. (c.0, Map.insert k v c.1);
  cap-empty = λ n. refl;
  get-empty = found_in_empty V;
  get-get = λ j k c. refl;
  get-put = λ j k v w c h. found_after_put j k v w c.1 h;
}

abbrev pub keep_all : LruCache Text TopicMatch
keep_all = keep TopicMatch
