-- ===== src/Client/Subscriber.antt =====
-- core/src/routing/subscriber.rs. The message channel and the command channel are parameters; the
-- shared drop counter is an argument.
pub mod Lag
pub mod Cancel
use mqtt_typed_client_next.Base.{
  ℕ, ◌-◌, Bool, true, false, Option, none, some, Result, ok, err, if◌then◌else◌, ltb,
}
use mqtt_typed_client_next.Topic.Router.{SubscriptionId}

pub data ReceiveEvent (M E : Type 0) : Type 0 where
  message : M → ReceiveEvent M E
  decode_failed : E → ReceiveEvent M E
  lagged : (missed : ℕ) → ReceiveEvent M E

-- `ReceiveEvent::message`.
abbrev pub message_of : {M E : Type 0} → ReceiveEvent M E → Option M
message_of (message m) = some m
message_of (decode_failed _) = none
message_of (lagged _) = none

pub data Infallible : Type 0 where

pub data Done : Type 0 where
  done : Done

-- `R` is the receiving half of the message channel, `S` the sending half of the command channel.
pub record Subscriber (R S : Type 0) : Type 0 where
  pub receiver : R
  pub unsubscribe_tx : Option S
  pub id : SubscriptionId
  pub last_seen_drops : ℕ

module _ {R S : Type 0} where
  abbrev pub new : R → S → SubscriptionId → Subscriber R S
  new receiver unsubscribe_tx id = record {
    receiver = receiver;
    unsubscribe_tx = some unsubscribe_tx;
    id = id;
    last_seen_drops = 0;
  }

  unfoldable pub take_lag : ℕ → Subscriber R S → Option ℕ × Subscriber R S
  take_lag dropped_messages s =
      let missed = dropped_messages - s.last_seen_drops in
      if ltb 0 missed
      then (some missed, record s { last_seen_drops = dropped_messages })
      else (none, s)

-- `recv` of the channel, awaited: `none` once it is closed and empty.
module _ {R S M : Type 0} (channel_recv : R → Option M × R) where
  abbrev pub receive : Subscriber R S → Option (ReceiveEvent M Infallible) × Subscriber R S
  receive s =
      let (m, rest) = channel_recv s.receiver in
      (elim m [ none ↦ none | some m' ↦ some (message m') ], record s { receiver = rest })

  unfoldable pub recv : ℕ → Subscriber R S → Option (ReceiveEvent M Infallible) × Subscriber R S
  unfolding take_lag
  recv dropped_messages s =
      let (lag, s') = take_lag dropped_messages s in
      elim lag [ some missed ↦ (some (lagged missed), s') | none ↦ receive s' ]

-- `send`, awaited, and `try_send` of the command channel, whose state is `W`, with their errors.
module _ {R S W E : Type 0} (sends : S → SubscriptionId → W → Result Done E × W) where
  -- `self` is consumed by `unsubscribe`, which awaits `send`, and borrowed by
  -- `unsubscribe_immediate`, which calls `try_send`.
  unfoldable pub unsubscribe : Subscriber R S → W → Result Done E × W
  unsubscribe s w = elim s.unsubscribe_tx [ none ↦ (ok done, w) | some tx ↦ sends tx s.id w ]

  abbrev put_back : Subscriber R S → S → Result Done E × W → Result Done E × Subscriber R S × W
  put_back s tx (ok d, w) = (ok d, record s { unsubscribe_tx = none }, w)
  put_back s tx (err e, w) = (err e, record s { unsubscribe_tx = some tx }, w)

  unfoldable pub unsubscribe_immediate : Subscriber R S → W → Result Done E × Subscriber R S × W
  unsubscribe_immediate s w = elim s.unsubscribe_tx [
    | none ↦ (ok done, s, w)
    | some tx ↦ put_back s tx (sends tx s.id w)
  ]

  -- `Drop`: an error is logged or ignored.
  unfoldable pub drop_handle : Subscriber R S → W → W
  drop_handle s w = elim s.unsubscribe_tx [ none ↦ w | some tx ↦ (sends tx s.id w).1 ]
