-- ===== src/Tests/Typed.antt =====
-- Runs of publishers, typed subscribers and the generated methods that bind.
use mqtt_typed_client_next.Base.{
  ℕ, zero, suc, ◌≤◌, Bool, true, false, none, some, List, [], ◌∷◌, ◌++◌, Result, ok, err, ◌≡◌, refl,
  arith, ◌⊎◌, length, any, Failure, panicked,
}
use mqtt_typed_client_next.Base.Text.{
  Text, codes, split, starts_with, ends_with, trim_end_matches, is_blank, contains,
}
use mqtt_typed_client_next.Topic.Item.{try_from, param_name}
use mqtt_typed_client_next.Topic.Qos.{at_least_once, exactly_once}
use mqtt_typed_client_next.Topic.TopicMatch
use mqtt_typed_client_next.Topic.TopicMatch.{TopicMatch}
use mqtt_typed_client_next.Topic.Validation.{validate_mqtt_topic, is_illegal}
use mqtt_typed_client_next.Topic.PatternPath.{validated, parse_segments, check_names}
use mqtt_typed_client_next.Topic.PatternPath.Binding.{is_param}
use mqtt_typed_client_next.Client.Subscriber.{message, lagged}
use mqtt_typed_client_next.Client.Builder.{SubscriptionBuilder, new_builder}
use mqtt_typed_client_next.Client.Typed.{RawEvent, MessageConversionError}
use mqtt_typed_client_next.Client.Typed.Laws.{
  structured_meaning, received_structured, received_structured-meaning,
}
use mqtt_typed_client_next.Client.Publisher.{
  MqttPublisher, PublishOptions, get_publisher, new, with_qos, with_retain,
}
use mqtt_typed_client_next.Client.Publisher.Sent.{
  Handed, PublisherCall, publishing, publishing_normal, clearing, calls, all_handed,
  calls-get_publisher,
}
use mqtt_typed_client_next.Macros.Analysis.{TopicParam}
use mqtt_typed_client_next.Macros.Codegen.{ref_str}
use mqtt_typed_client_next.Macros.Codegen.Items.{ForMethod, generate_single_for_method}
use mqtt_typed_client_next.Macros.Generated.Bind.{is_hash_param, called, Binds, called-named}
use mqtt_typed_client_next.Tests.{open_items, pattern_with}

abbrev found : TopicMatch
found = record { topic = TopicMatch.new (codes "a/7"); params = (1, 2) ∷ []; named_params = [] }

-- A payload of one byte is its value, and any other fails.
abbrev one_byte : Text → Result ℕ Text
one_byte (c ∷ []) = ok c
one_byte bytes = err bytes

abbrev to_struct : TopicMatch → ℕ → ℕ → Result ℕ (Failure (MessageConversionError Text Text))
to_struct topic meta payload = ok payload

-- An empty payload, a notice of lag, a payload that fails and one that does not.
abbrev events : List (RawEvent ℕ)
events =
    message (found, 0, [])
    ∷ lagged 2
    ∷ message (found, 0, 1 ∷ 2 ∷ [])
    ∷ message (found, 0, 5 ∷ [])
    ∷ []

received_structured-meaning_example :
    received_structured one_byte to_struct 4 events ≡ structured_meaning one_byte to_struct events
received_structured-meaning_example =
    received_structured-meaning one_byte to_struct 4 events (omega arith)

abbrev serialize : ℕ → ℕ → Result Text ℕ
serialize format zero = err 0
serialize format (suc n) = ok (n ∷ [])

abbrev silent : Text → Text → PublishOptions → List Handed → Result (Unit {0}) ℕ
silent topic payload options log = ok tt

abbrev publisher : MqttPublisher ℕ
publisher = record { topic = codes "a/7"; qos = at_least_once; retain = false; serializer = 3 }

abbrev made_calls : List (PublisherCall ℕ)
made_calls = publishing 4 ∷ publishing 0 ∷ publishing_normal 5 ∷ clearing ∷ []

calls-get_publisher_example :
    (1 ≤ length (codes "a/7"))
    × (length (codes "a/7") ≤ 65535)
    × (any is_illegal (codes "a/7") ≡ false)
    × (calls serialize silent (with_retain (with_qos publisher exactly_once) true) made_calls []
        ≡ [] ++ all_handed serialize silent (codes "a/7") exactly_once true 3 made_calls)
calls-get_publisher_example =
    calls-get_publisher serialize silent 3 (codes "a/7") publisher exactly_once true made_calls []
      (unfold get_publisher new validate_mqtt_topic in refl)

-- A subscription to `a/{rest:#}`.
abbrev open_builder : SubscriptionBuilder ℕ
open_builder = new_builder (pattern_with ℕ open_items)

abbrev rest_param : TopicParam
rest_param = record { name = some (codes "rest"); wildcard_index = 0; struct_field_type = none }

abbrev no_decimal : ℕ → Text
no_decimal i = []

open_run : validated (codes "a/{rest:#}") ≡ ok open_items
unfolding validated parse_segments try_from check_names split is_blank param_name starts_with
    ends_with trim_end_matches contains
open_run = refl

-- A text that is not empty.
abbrev filled : Text → Bool
filled [] = false
filled (c ∷ t) = true

abbrev for_rest : ForMethod
for_rest = record { method_name = codes "for_rest"; param_type = ref_str; param_key = codes "rest" }

for_rest_run : generate_single_for_method no_decimal filled rest_param ≡ ok for_rest
unfolding generate_single_for_method
for_rest_run = refl

called-named_example :
    (for_rest.method_name ≡ codes "for_" ++ codes "rest")
    × (((any (is_param (codes "rest")) open_items ≡ true)
          × Binds open_builder (codes "x") for_rest (codes "rest"))
        ⊎ ((any (is_hash_param (codes "rest")) open_items ≡ true)
            × (called open_builder (codes "x") for_rest ≡ err panicked)))
called-named_example =
    called-named open_builder (codes "x") for_rest no_decimal filled rest_param (codes "a/{rest:#}")
      (codes "rest") for_rest_run open_run refl (unfold param_name in refl)
