-- ===== src/Macros/Analysis/Step.antt =====
-- One round of the loop over the fields in `analyze` of macros/src/analysis.rs.
use mqtt_typed_client_next.Base.{
  Bool, true, false, not, ◌||◌, Option, none, some, List, [], ◌∷◌, ◌++◌, ok, ◌≡◌, refl, arith, ◌==◌,
  Bool-cases, inl, inr, >>=-eq-ok, ok-injective,
}
use mqtt_typed_client_next.Base.Text.{Text, text_Eq, text_eq, text_eq_iff, codes}
use mqtt_typed_client_next.Topic.PatternPath.{TopicPatternPath, is_named}
use mqtt_typed_client_next.Macros.Syntax.{SynType, Field}
use mqtt_typed_client_next.Macros.Analysis.{
  Found, reserved_field_names, named_params, reject_reserved_wildcard, validate_adaptive_field,
  analyze_field,
}

abbrev pub is_some {ℓ} : {A : Type ℓ} → Option A → Bool
is_some none = false
is_some (some a) = true

pub text_eq_comm : (s t : Text) → text_eq s t ≡ text_eq t s
text_eq_comm s t = ground (arith, text_eq_iff s t, text_eq_iff t s)

append_one-ne_nil : {A : Type 0} (xs : List A) (x : A) → xs ++ x ∷ [] ≡ [] → ⊥
append_one-ne_nil [] x h = cc
append_one-ne_nil (y ∷ xs) x h = cc

module _ {C : Type 0} (p : TopicPatternPath C) where
  -- A reserved name is no wildcard of the pattern, and any other name is one.
  abbrev pub IsKnown : Text → Type 0
  IsKnown name = is_named name (named_params p) ≡ not (is_named name reserved_field_names)

  pub record Sets (name : Text) (found after : Found) : Type 0 where
    pub payload :
        is_some after.payload_type ≡ (name == codes "payload" || is_some found.payload_type)
    pub topic : after.has_topic_field ≡ (name == codes "topic" || found.has_topic_field)
    pub meta : after.has_meta_field ≡ (name == codes "meta" || found.has_meta_field)
    pub known : after.unknown ≡ [] → (found.unknown ≡ []) × IsKnown name

  accepted :
      (name : Text) {u : Unit {0}}
      → reject_reserved_wildcard p name ≡ ok u
      → is_named name (named_params p) ≡ false
  unfolding reject_reserved_wildcard
  accepted name h = ground arith

  module _ (ty : SynType) (found after : Found) where
    abbrev field_named : Text → Field
    field_named name = record { ident = name; ty = ty }

    payload_step :
        analyze_field p (field_named (codes "payload")) found ≡ ok after
        → Sets (codes "payload") found after
    unfolding analyze_field
    payload_step h =
        let (_, free, e) = >>=-eq-ok (reject_reserved_wildcard p (codes "payload")) _ h in
        rw (← ok-injective e) (record {
          payload = refl;
          topic = refl;
          meta = refl;
          known = λ none_unknown. (none_unknown, accepted (codes "payload") free);
        })

    topic_step :
        analyze_field p (field_named (codes "topic")) found ≡ ok after
        → Sets (codes "topic") found after
    unfolding analyze_field
    topic_step h =
        let (_, free, h') = >>=-eq-ok (reject_reserved_wildcard p (codes "topic")) _ h in
        let (owned, _, e) =
          >>=-eq-ok (validate_adaptive_field ty (codes "TopicMatch") (codes "topic")) _ h' in
        rw (← ok-injective e) (record {
          payload = refl;
          topic = refl;
          meta = refl;
          known = λ none_unknown. (none_unknown, accepted (codes "topic") free);
        })

    meta_step :
        analyze_field p (field_named (codes "meta")) found ≡ ok after
        → Sets (codes "meta") found after
    unfolding analyze_field
    meta_step h =
        let (_, free, h') = >>=-eq-ok (reject_reserved_wildcard p (codes "meta")) _ h in
        let (owned, _, e) =
          >>=-eq-ok (validate_adaptive_field ty (codes "MessageMeta") (codes "meta")) _ h' in
        rw (← ok-injective e) (record {
          payload = refl;
          topic = refl;
          meta = refl;
          known = λ none_unknown. (none_unknown, accepted (codes "meta") free);
        })

    -- `field_named name` with a name that is not reserved.
    other_step :
        (name : Text)
        → text_eq name (codes "payload") ≡ false
        → text_eq name (codes "topic") ≡ false
        → text_eq name (codes "meta") ≡ false
        → analyze_field p (field_named name) found ≡ ok after
        → Sets name found after
    unfolding analyze_field
    other_step name a b c h = elim (Bool-cases (is_named name (named_params p))) [
      | inl wild ↦ rw (← ok-injective (rw (a, b, c, wild) at h)) (record {
        payload = rw a refl;
        topic = rw b refl;
        meta = rw c refl;
        known = λ none_unknown. (
          none_unknown,
          rw
              (
                wild,
                text_eq_comm (codes "payload") name,
                a,
                text_eq_comm (codes "topic") name,
                b,
                text_eq_comm (codes "meta") name,
                c,
              )
              refl,
        );
      })
      | inr unknown ↦ rw (← ok-injective (rw (a, b, c, unknown) at h)) (record {
        payload = rw a refl;
        topic = rw b refl;
        meta = rw c refl;
        known = λ none_unknown. absurd (append_one-ne_nil found.unknown name none_unknown);
      })
    ]

    named_step :
        (name : Text) → analyze_field p (field_named name) found ≡ ok after → Sets name found after
    named_step name h = elim (Bool-cases (text_eq name (codes "payload"))) [
      | inl a ↦ let e = (text_eq_iff name (codes "payload")).0 a in rw e (payload_step (rw e at h))
      | inr a ↦ elim (Bool-cases (text_eq name (codes "topic"))) [
        | inl b ↦ let e = (text_eq_iff name (codes "topic")).0 b in rw e (topic_step (rw e at h))
        | inr b ↦ elim (Bool-cases (text_eq name (codes "meta"))) [
          | inl c ↦ let e = (text_eq_iff name (codes "meta")).0 c in rw e (meta_step (rw e at h))
          | inr c ↦ other_step name a b c h
        ]
      ]
    ]

  -- What a round that succeeds has done.
  pub analyze_field-Sets :
      (field : Field) (found after : Found)
      → analyze_field p field found ≡ ok after
      → Sets field.ident found after
  analyze_field-Sets field found after h = named_step field.ty found after field.ident h
