-- ===== src/Client/Manager/Sound/Channels.antt =====
-- The channels that the events of the subscription manager's loop need.
use mqtt_typed_client_next.Base.{◌≤◌, Bool, some, ok, ◌≡◌, Option-cases, inl, inr}
use mqtt_typed_client_next.Base.Text.{Text}
use mqtt_typed_client_next.Topic.Cache.{LruCache}
use mqtt_typed_client_next.Topic.TopicMatch.{TopicPath, TopicMatch}
use mqtt_typed_client_next.Client.Manager.{MessageType, Outside}
use mqtt_typed_client_next.Client.Manager.Handlers.{State}
use mqtt_typed_client_next.Client.Manager.Requests.{handle_subscribe}
use mqtt_typed_client_next.Client.Manager.Run.{Command, Event, turn}

module _ {D : Type 0} (cache : LruCache Text TopicMatch) (paths : LruCache Text TopicPath)
    (o : Outside (MessageType D)) where
  open o use {World}

  -- The channel of a request can be made: its capacity is not 0, which its type excludes in the
  -- source, and not above the limit.
  abbrev pub CommandFits : Command cache paths o → Type 0
  CommandFits (Command.subscribe topic config listens) =
      (1 ≤ config.channel_capacity) × (config.channel_capacity ≤ o.max_capacity)
  CommandFits (Command.send message) = Unit
  CommandFits Command.resubscribe_all = Unit
  CommandFits Command.shutdown = Unit

  abbrev pub EventFits : Event cache paths o → Type 0
  EventFits (Event.command c) = CommandFits c
  EventFits Event.shutdown_signal = Unit
  EventFits Event.commands_closed = Unit
  EventFits (Event.slow_send_ended k result) = Unit
  EventFits (Event.unsubscribe_request id) = Unit

  -- The channel of a request is made.
  abbrev pub CommandOpens : Command cache paths o → World → Type 0
  CommandOpens (Command.subscribe topic config listens) w =
      (opened : (o.Sender × o.Receiver) × World) × (o.channel config.channel_capacity w
        ≡ some opened)
  CommandOpens (Command.send message) w = Unit
  CommandOpens Command.resubscribe_all w = Unit
  CommandOpens Command.shutdown w = Unit

  abbrev pub EventOpens : Event cache paths o → World → Type 0
  EventOpens (Event.command c) w = CommandOpens c w
  EventOpens Event.shutdown_signal w = Unit
  EventOpens Event.commands_closed w = Unit
  EventOpens (Event.slow_send_ended k result) w = Unit
  EventOpens (Event.unsubscribe_request id) w = Unit

  pub fits_opens : (event : Event cache paths o) (w : World) → EventFits event → EventOpens event w
  fits_opens (Event.command (Command.subscribe topic config listens)) w (filled, below) =
      o.channel_opens config.channel_capacity w filled below
  fits_opens (Event.command (Command.send message)) w h = tt
  fits_opens (Event.command Command.resubscribe_all) w h = tt
  fits_opens (Event.command Command.shutdown) w h = tt
  fits_opens Event.shutdown_signal w h = tt
  fits_opens Event.commands_closed w h = tt
  fits_opens (Event.slow_send_ended k result) w h = tt
  fits_opens (Event.unsubscribe_request id) w h = tt

  -- A turn that does not panic has made the channel that it needs.
  pub turn_opens :
      (event : Event cache paths o) (a : State cache paths o) (r : State cache paths o × Bool)
      → turn cache paths o event a ≡ ok r
      → EventOpens event a.world
  unfolding turn handle_subscribe
  turn_opens (Event.command (Command.subscribe topic config listens)) a r e =
      elim (Option-cases (o.channel config.channel_capacity a.world)) [
        | inl none_made ↦ absurd (cc (rw (none_made, turn, handle_subscribe) at e))
        | inr opened ↦ opened
      ]
  turn_opens (Event.command (Command.send message)) a r e = tt
  turn_opens (Event.command Command.resubscribe_all) a r e = tt
  turn_opens (Event.command Command.shutdown) a r e = tt
  turn_opens Event.shutdown_signal a r e = tt
  turn_opens Event.commands_closed a r e = tt
  turn_opens (Event.slow_send_ended k result) a r e = tt
  turn_opens (Event.unsubscribe_request id) a r e = tt
