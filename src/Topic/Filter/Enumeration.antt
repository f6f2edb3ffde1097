-- ===== src/Topic/Filter/Enumeration.antt =====
-- The filters that match a topic, one by one.
use mqtt_typed_client_next.Base.{
  true, ◌≡◌, refl, ◌↔◌, arith, List, [], ◌∷◌, ◌++◌, map, Memᴰ, inl, inr,
}
use mathlib.Core.List.Memᴰ
use mqtt_typed_client_next.Base.Text.{Text, text_eq_iff}
use mqtt_typed_client_next.Topic.Filter.{TopicFilter, finish, multi, level, single, matches}

abbrev pub matching_filters : List Text → List TopicFilter
matching_filters [] = finish ∷ multi ∷ []
matching_filters (s ∷ topic) =
    let fs = matching_filters topic in map (level s) fs ++ (map single fs ++ multi ∷ [])

matches→Memᴰ :
    (topic : List Text) (f : TopicFilter) → matches f topic ≡ true → Memᴰ f (matching_filters topic)
matches→Memᴰ [] finish h = Memᴰ.head refl
matches→Memᴰ [] multi h = Memᴰ.tail (Memᴰ.head refl)
matches→Memᴰ [] (level t f) h = absurd (cc)
matches→Memᴰ [] (single f) h = absurd (cc)
matches→Memᴰ (s ∷ topic) finish h = absurd (cc)
matches→Memᴰ (s ∷ topic) multi h = Memᴰ.append_right _ (Memᴰ.append_right _ (Memᴰ.head refl))
matches→Memᴰ (s ∷ topic) (level t f) h =
    rw ((text_eq_iff t s).0 (ground arith))
      (Memᴰ.append_left _ (Memᴰ.map (level s) (matches→Memᴰ topic f (ground arith))))
matches→Memᴰ (s ∷ topic) (single f) h =
    Memᴰ.append_right _ (Memᴰ.append_left _ (Memᴰ.map single (matches→Memᴰ topic f h)))

-- Each of the three parts of the list holds filters that match.
module _ (s : Text) (topic : List Text)
    (below : (g : TopicFilter) → Memᴰ g (matching_filters topic) → matches g topic ≡ true)
    {f : TopicFilter} where
  level-matches : Memᴰ f (map (level s) (matching_filters topic)) → matches f (s ∷ topic) ≡ true
  level-matches m =
      let (g, mg, e) = Memᴰ.of_map (level s) (matching_filters topic) m in
      rw (← e, (text_eq_iff s s).1 refl) (below g mg)

  rest-matches :
      Memᴰ f (map single (matching_filters topic) ++ multi ∷ []) → matches f (s ∷ topic) ≡ true
  rest-matches m = elim (Memᴰ.append_cases (map single (matching_filters topic)) m) [
    | inl m' ↦
        let (g, mg, e) = Memᴰ.of_map single (matching_filters topic) m' in rw (← e) (below g mg)
    | inr m' ↦ rw (Memᴰ.eq_of_singleton m')
  ]

Memᴰ→matches :
    (topic : List Text) (f : TopicFilter) → Memᴰ f (matching_filters topic) → matches f topic ≡ true
Memᴰ→matches [] f (Memᴰ.head e) = rw e
Memᴰ→matches [] f (Memᴰ.tail (Memᴰ.head e)) = rw e
Memᴰ→matches [] f (Memᴰ.tail (Memᴰ.tail m)) = elim m [ ]
Memᴰ→matches (s ∷ topic) f m = elim (Memᴰ.append_cases (map (level s) (matching_filters topic)) m) [
  | inl m' ↦ level-matches s topic (Memᴰ→matches topic) m'
  | inr m' ↦ rest-matches s topic (Memᴰ→matches topic) m'
]

-- The enumeration has exactly the filters that match.
pub Memᴰ-matching_filters :
    (topic : List Text) (f : TopicFilter)
    → Memᴰ f (matching_filters topic) ↔ (matches f topic ≡ true)
Memᴰ-matching_filters topic f = (Memᴰ→matches topic f, matches→Memᴰ topic f)
