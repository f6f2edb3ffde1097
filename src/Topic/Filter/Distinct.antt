-- ===== src/Topic/Filter/Distinct.antt =====
-- No filter stands twice in the enumeration of those that match a topic.
use mqtt_typed_client_next.Base.{List, [], ◌∷◌, ◌++◌, map, Memᴰ, inl, inr, ◌≡◌, refl}
use mathlib.Core.List.Memᴰ
use mqtt_typed_client_next.Base.Text.{Text}
use mqtt_typed_client_next.Topic.Filter.{TopicFilter, multi, level, single}
use mqtt_typed_client_next.Topic.Filter.Enumeration.{matching_filters}

abbrev pub AreDistinct : List TopicFilter → Type 0
AreDistinct [] = Unit
AreDistinct (f ∷ fs) = (Memᴰ f fs → ⊥) × AreDistinct fs

AreDistinct-append :
    (xs ys : List TopicFilter)
    → AreDistinct xs
    → AreDistinct ys
    → ((f : TopicFilter) → Memᴰ f xs → Memᴰ f ys → ⊥)
    → AreDistinct (xs ++ ys)
AreDistinct-append [] ys hx hy apart = hy
AreDistinct-append (x ∷ xs) ys (new, hx) hy apart = (
  λ m. elim (Memᴰ.append_cases xs m) [ inl a ↦ new a | inr b ↦ apart x (Memᴰ.head refl) b ],
  AreDistinct-append xs ys hx hy (λ f a b. apart f (Memᴰ.tail a) b),
)

AreDistinct-map :
    (c : TopicFilter → TopicFilter) (fs : List TopicFilter)
    → ((f g : TopicFilter) → c f ≡ c g → f ≡ g)
    → AreDistinct fs
    → AreDistinct (map c fs)
AreDistinct-map c [] inj h = tt
AreDistinct-map c (f ∷ fs) inj (new, h) = (
  λ m. let (g, mg, e) = Memᴰ.of_map c fs m in new (rw (inj g f e) at mg),
  AreDistinct-map c fs inj h,
)

pub matching_filters-AreDistinct : (topic : List Text) → AreDistinct (matching_filters topic)
matching_filters-AreDistinct [] =
    ((λ m. elim (Memᴰ.cases_cons m) [ inl e ↦ cc | inr n ↦ elim n [ ] ]), ((λ m. elim m [ ]), tt))
matching_filters-AreDistinct (s ∷ topic) =
    let fs = matching_filters topic in
    let ih = matching_filters-AreDistinct topic in
    AreDistinct-append (map (level s) fs) (map single fs ++ multi ∷ [])
      (AreDistinct-map (level s) fs (λ f g e. cc) ih)
      (AreDistinct-append (map single fs) (multi ∷ []) (AreDistinct-map single fs (λ f g e. cc) ih)
        ((λ m. elim m [ ]), tt)
        (λ f a b.
          let (g, mg, e) = Memᴰ.of_map single fs a in let e' = Memᴰ.eq_of_singleton b in cc))
      (λ f a b.
        let (g, mg, e) = Memᴰ.of_map (level s) fs a in
        elim (Memᴰ.append_cases (map single fs) b) [
          | inl c ↦ let (h, mh, e') = Memᴰ.of_map single fs c in cc
          | inr c ↦ let e' = Memᴰ.eq_of_singleton c in cc
        ])
