-- ===== src/Lib.antt =====
-- A model of mqtt-typed-client: the topic engine that decides which subscription is given which
-- message, and the parts of the client around it that keep state.
--
-- The topic engine (mqtt-topic-engine/src). A pattern such as `sensors/{id}/{rest:#}` is split at
-- its slashes and each segment is parsed to an item. A router keeps a map of subscriptions by id
-- and a trie of the same subscriptions by the segments of their patterns, with bound parameters in
-- place of their wildcards. A topic that arrives walks the trie, and each subscription found is
-- matched again by its pattern, which captures the parameters and may cache the result.
--   Topic.Item          topic_pattern_item.rs: items, `try_from`, `as_wildcard`. Parsed says what a text
--                       stands for, without the parser.
--   Topic.PatternPath   topic_pattern_path.rs: `validated` is the part of `new_from_string` before
--                       the cache is made; Matching has `try_match_internal`, Format `format_topic`,
--                       Binding `bind_parameter` and what reads the bindings, Caching `try_match`
--                       and `with_cache_strategy`, Access the getters.
--   Topic.TopicMatch    topic_match.rs: topics with their segments, captured ranges and lookups.
--   Topic.Matcher       topic_matcher.rs: the trie. `get_or_create_subscription_table` returns the
--                       table and the function that writes it back, for the mutable reference.
--   Topic.Router        topic_router.rs: a router is the state that each operation takes and returns.
--   Topic.Filter        the meaning of a filter, independent of patterns and trie: `filter_of`
--                       forgets the names of parameters, `matches` are the rules of MQTT.
--   Topic.Cache         cache_strategy.rs, and what is relied on of the `lru` crate.
--   Topic.Qos, Topic.Validation
--                       qos.rs, the checks of error.rs, and `validate_mqtt_topic` of
--                       core/src/client/async_client.rs.
--
-- The client (core/src).
--   Client.Bootstrap    `establish_connection` of client/async_client.rs, over a list of events.
--   Client.EventLoop    `run` of client/async_client.rs and connection_state.rs: what the polled
--                       client yields is a list of events, what `run` asks of others a list of
--                       effects. One turn of the loop is `turn`, the loop over the events `run_from`.
--   Client.Manager      routing/subscription_manager.rs, the actor that routes messages. Its state is
--                       `Actor`; Handlers and Requests have a function per handler and per loop of
--                       one, Run the loop over events and the cleanup. Pipe is what one subscription
--                       is promised, View one subscription in the state of the actor, Kept is about
--                       the router in it, Sound about the states between two events, and Broker
--                       about what the actor asks of the broker. The log of messages offered and
--                       accepted is not in the code. Every answer of a channel or of the broker is a
--                       choice of the interface `Outside`, and the events are any list. A channel
--                       of too large a capacity panics, as tokio documents.
--   Client.Builder      client/subscription_builder.rs, and the handle of the subscription manager.
--   Client.Options      client/connection_options.rs: options from a URL that the crate `url` has
--                       parsed (Scheme is about its scheme), `to_backend_v4`, and in BackendV5
--                       `to_backend_v5`. The features that choose the default protocol are
--                       arguments.
--   Client.Subscriber   routing/subscriber.rs: the handle of a subscription, with the drop counter
--                       that it shares with the manager, and its two ways to cancel.
--
--   Client.Typed        client/subscriber.rs and structured/subscriber.rs: what successive calls of
--                       `recv` yield is a list. Laws has its meaning, event by event.
--   Client.Publisher    client/publisher.rs and `get_publisher` of client/async_client.rs. In Sent the
--                       backend keeps a log of what it is handed.
--
-- The macro `mqtt_topic` (macros/src). It parses its arguments, compares the fields of a struct with
-- the wildcards of the pattern, and emits a publisher, a subscriber and the methods that bind.
--   Macros.Syntax       the parts of the syntax trees of the crate `syn` that the macro reads.
--   Macros.Args         lib.rs: `parse_macro_args`.
--   Macros.Analysis     analysis.rs: `analyze`. Step is one round of its loop, Params the numbering of
--                       the wildcards and the types of the fields.
--   Macros.Codegen      codegen.rs: what is emitted, as data, or the panic of the macro; Items has the
--                       items beside the conversion, Fields and Literal are about the struct
--                       literal. Which texts are identifiers is an argument, for `format_ident!`.
--   Macros.Naming       naming.rs.
--   Macros.Generated    the meaning of the emitted code: `format!`, the call of a publisher, the
--                       extraction of parameters, the struct literal, and the methods that bind.
--                       Format and Topic are about the topic, Struct, Message and Received about the
--                       struct, Custom about a pattern of the caller's.
--   Macros.RoundTrip    the publisher and the subscriber of one struct together.
--
-- Texts are lists of bytes. A `HashMap` is a list of entries, whose order no theorem depends on. A
-- panic is an error value. Ids are taken modulo 2 ^ 64, the event loop's counters modulo 2 ^ 32 and
-- the drop counter modulo 2 ^ 64; where a theorem needs room below these bounds it says so. All
-- functions are structural recursions, so no fuel is used. The LRU cache, the channels and the
-- client library are parameters with what is relied on of them. Formatted messages of errors are
-- left out.
--
-- Not modelled: the controller of the subscription manager and the handle of the connection, which
-- await tasks, serializers, the typed client that the macro emits, the settings that are passed on,
-- and the texts of errors.
--
-- Tests has the sample data, and concrete runs of the theorems.
pub mod Base
pub mod Topic
pub mod Client
pub mod Macros
pub mod Tests
