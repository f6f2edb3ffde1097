-- ===== src/Client/Manager/View/RemoveAt.antt =====
-- A slow send that leaves the set.
use mqtt_typed_client_next.Base.{
  ℕ, zero, suc, false, ◌≤◌, some, List, [], ◌∷◌, ◌≡◌, refl, nat_Eq, ◌==◌, ap, eq_refl, Bool-cases,
  inl, inr, arith, length, get_elem?,
}
use mathlib.Core.Option.{some-injective}
use mqtt_typed_client_next.Base.Text.{Text}
use mqtt_typed_client_next.Topic.Cache.{LruCache}
use mqtt_typed_client_next.Topic.TopicMatch.{TopicPath, TopicMatch}
use mqtt_typed_client_next.Topic.Router.{SubscriptionId}
use mqtt_typed_client_next.Client.Manager.{MessageType, Outside, SlowSend}
use mqtt_typed_client_next.Client.Manager.Handlers.{Entry, remove_at}
use mqtt_typed_client_next.Client.Manager.Pipe.Laws.{nil_of_length}
use mqtt_typed_client_next.Client.Manager.View.{sends_of}

module _ {D : Type 0} (cache : LruCache Text TopicMatch) (paths : LruCache Text TopicPath)
    (o : Outside (MessageType D)) where
  open o use {World, Sender}

  abbrev Sends : Type 0
  Sends = List (SlowSend Sender (MessageType D))

  pub remove_at_other :
      (i : SubscriptionId) (fs : Sends) (k : ℕ) (id : SubscriptionId) (entry : Entry cache paths o)
      (msg : MessageType D)
      → get_elem? fs k ≡ some (id, entry, msg)
      → (id == i) ≡ false
      → sends_of i (remove_at cache paths o fs k) ≡ sends_of i fs
  unfolding sends_of
  remove_at_other i [] k id entry msg h other = refl
  remove_at_other i ((j, e, m) ∷ fs) zero id entry msg h other =
      let same : j ≡ id =
        ap (λ (x : SlowSend Sender (MessageType D)). x.0) (some-injective _ _ h) in
      rw (same, other, sends_of) refl
  remove_at_other i ((j, e, m) ∷ fs) (suc k) id entry msg h other =
      let rest = remove_at_other i fs k id entry msg h other in
      elim (Bool-cases (j == i)) [
        | inl here ↦ rw (here, sends_of) (ap (λ l. m ∷ l) rest)
        | inr there ↦ rw (there, sends_of) rest
      ]

  -- The only slow send of a subscription is the one that has ended.
  pub remove_at_self :
      (id : SubscriptionId) (fs : Sends) (k : ℕ) (entry : Entry cache paths o) (msg : MessageType D)
      → get_elem? fs k ≡ some (id, entry, msg)
      → length (sends_of id fs) ≤ 1
      → (sends_of id fs ≡ msg ∷ []) × (sends_of id (remove_at cache paths o fs k) ≡ [])
  unfolding sends_of
  remove_at_self id [] k entry msg h one = absurd (cc)
  remove_at_self id ((j, e, m) ∷ fs) zero entry msg h one =
      let q = some-injective _ _ h in
      let same : j ≡ id = ap (λ (x : SlowSend Sender (MessageType D)). x.0) q in
      let same' : m ≡ msg = ap (λ (x : SlowSend Sender (MessageType D)). x.2) q in
      let one' = rw (same, eq_refl id, sends_of) at one in
      let rest = nil_of_length (sends_of id fs) (omega arith) in
      (rw (same, eq_refl id, sends_of, rest, same') refl, rest)
  remove_at_self id ((j, e, m) ∷ fs) (suc k) entry msg h one = elim (Bool-cases (j == id)) [
    | inl here ↦
        let one' = rw (here, sends_of) at one in
        let rest = remove_at_self id fs k entry msg h (omega arith) in
        absurd (let n = ap length rest.0 in omega arith)
    | inr there ↦
        rw (there, sends_of) (remove_at_self id fs k entry msg h (rw (there, sends_of) at one))
  ]
