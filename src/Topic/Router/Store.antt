-- ===== src/Topic/Router/Store.antt =====
-- A router whose subscriptions are changed without a change to their filters, and the outcome of
-- any `unsubscribe`.
use mqtt_typed_client_next.Base.{
  some, ◌≡◌, refl, sym, ap, ◌∙◌, nat_Eq, ◌==◌, inl, inr, Bool-cases, Option-cases, eq_sound,
}
use mathlib.Core.Option.{some-injective}
use mqtt_typed_client_next.Base.Map
use mqtt_typed_client_next.Topic.Router.{
  SubscriptionId, Registered, TopicRouter, unsubscribe, table_Payload,
}
use mqtt_typed_client_next.Topic.Router.Invariant.{IsLinked, filter_at}
use mqtt_typed_client_next.Topic.Router.Unsubscribe.{unsubscribe-IsLinked}

module _ {C T : Type 0} (r : TopicRouter C T) (linked : IsLinked r) where
  module _ (id : SubscriptionId) (s s' : Registered C)
      (found : Map.lookup id r.subscriptions ≡ some s) (same : filter_at s' ≡ filter_at s) where
    pub stored_filter :
        (j : SubscriptionId) (u : Registered C)
        → Map.lookup j r.subscriptions ≡ some u
        → (v : Registered C) × (Map.lookup j (Map.insert id s' r.subscriptions) ≡ some v)
          × (filter_at v ≡ filter_at u)
    stored_filter j u e = elim (Bool-cases (id == j)) [
      | inl here ↦ (
        s',
        Map.lookup-insert j id s' r.subscriptions ∙ rw here refl,
        same
            ∙ ap filter_at
                (some-injective s u (sym found ∙ (rw (sym (eq_sound {a = id} {b = j} here)) at e))),
      )
      | inr other ↦ (u, Map.lookup-insert j id s' r.subscriptions ∙ rw other e, refl)
    ]

    stored_back :
        (j : SubscriptionId) (v : Registered C)
        → Map.lookup j (Map.insert id s' r.subscriptions) ≡ some v
        → (u : Registered C) × (Map.lookup j r.subscriptions ≡ some u) × (filter_at v ≡ filter_at u)
    stored_back j v e =
        let e' = sym (Map.lookup-insert j id s' r.subscriptions) ∙ e in
        elim (Bool-cases (id == j)) [
          | inl here ↦ (
            s,
            rw (sym (eq_sound {a = id} {b = j} here)) found,
            ap filter_at (some-injective _ _ (sym (rw here at e'))) ∙ same,
          )
          | inr other ↦ (v, rw other at e', refl)
        ]

    pub stored-IsLinked : IsLinked (record r { subscriptions = Map.insert id s' r.subscriptions })
    stored-IsLinked = record {
      linked = λ j v e. let (u, e', f) = stored_back j v e in rw f (linked.linked j u e');
      owned = λ f table j t at m.
          let (u, e, own) = linked.owned f table j t at m in
          let (v, e', g) = stored_filter j u e in (v, e', g ∙ own);
      clean = linked.clean;
      keyed = linked.keyed;
      fresh = λ j v e. let (u, e', f) = stored_back j v e in linked.fresh j u e';
    }

  unsubscribe_found :
      (id : SubscriptionId) (s : Registered C)
      → Map.lookup id r.subscriptions ≡ some s
      → IsLinked (unsubscribe r id).1 × ((unsubscribe r id).1.next_id ≡ r.next_id)
  unsubscribe_found id s found =
      let (r', run, linked', entries, next) = unsubscribe-IsLinked r id s linked found in
      rw run (linked', next)

  -- Whatever the outcome, the router stays linked and the next id is kept.
  pub unsubscribe_kept :
      (id : SubscriptionId)
      → IsLinked (unsubscribe r id).1 × ((unsubscribe r id).1.next_id ≡ r.next_id)
  unfolding unsubscribe
  unsubscribe_kept id = elim (Option-cases (Map.lookup id r.subscriptions)) [
    | inl missing ↦ rw (missing, unsubscribe) (linked, refl)
    | inr (s, found) ↦ unsubscribe_found id s found
  ]
