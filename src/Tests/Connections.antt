-- ===== src/Tests/Connections.antt =====
-- Options of a connection, from a URL and for the client library, and a builder of subscriptions.
use mqtt_typed_client_next.Base.{
  ℕ, ◌*◌, ◌^◌, ◌<◌, true, false, not, ◌||◌, Option, none, some, [], ◌∷◌, ok, ◌≡◌, refl,
  if◌then◌else◌,
}
use mqtt_typed_client_next.Base.Text.{Text, codes, is_empty}
use mqtt_typed_client_next.Base.Map
use mqtt_typed_client_next.Topic.PatternPath.Binding
use mqtt_typed_client_next.Client.Builder.{
  SubscriptionBuilder, new_builder, bind_parameter, with_pattern, with_pattern-bind_parameter,
}
use mqtt_typed_client_next.Tests.{pattern}
use mqtt_typed_client_next.Client.Options.{
  second, clean_per_connection, resume, ConnectionOptions, Url, v4, ws, from_url, by_scheme,
  query_loop, set_param, parse_bool, parse_u64, digits, option_or,
}
use mqtt_typed_client_next.Client.Options.FromUrl.{last_value, from_url-ok}
use mqtt_typed_client_next.Client.Options.Scheme.{IsKnown}
use mqtt_typed_client_next.Client.Options.Backend.{
  Features, Library, MqttOptions, to_backend_v4, to_backend_v4-ok, keep_alive_secs,
  base_backend_options, backend_transport,
}

abbrev pub some_url : Url
some_url = record {
  as_str = codes "ws://u@h/?client_id=a&keep_alive_secs=30&clean_session=false&client_id=b";
  scheme = codes "ws";
  host_str = some (codes "h");
  port = none;
  username = codes "u";
  password = none;
  query_pairs =
      (codes "client_id", codes "a")
      ∷ (codes "keep_alive_secs", codes "30")
      ∷ (codes "clean_session", codes "false")
      ∷ (codes "client_id", codes "b")
      ∷ [];
}

abbrev parse_some : Text → Option Url
parse_some text = some some_url

abbrev pub some_options : ConnectionOptions ℕ ℕ
some_options = record {
  client_id = codes "b";
  host = codes "h";
  port = 8000;
  keep_alive = 30 * second;
  credentials = some (record { username = codes "u"; password = [] });
  session = resume;
  protocol = v4;
  transport = ws;
  websocket_url = some some_url.as_str;
  last_will = none;
}

url_read : from_url true false parse_some [] ≡ ok some_options
unfolding from_url by_scheme query_loop set_param parse_bool parse_u64 digits
url_read = refl

from_url-ok_example :
    (url : Url) × (default_port : ℕ) × (parse_some [] ≡ some url)
    × (last_value (codes "client_id") url.query_pairs ≡ some (codes "b"))
    × (url.host_str ≡ some (codes "h"))
    × (is_empty (codes "h") ≡ false)
    × IsKnown {T = ℕ} url ws default_port (some some_url.as_str)
    × (8000 ≡ option_or url.port default_port)
    × (some_options.credentials ≡ (
        if is_empty url.username
        then none
        else some (record { username = url.username; password = option_or url.password [] })))
from_url-ok_example = from_url-ok true false parse_some [] some_options url_read

-- A build with WebSockets and without TLS, and brokers that are their addresses.
abbrev pub features : Features
features = record { websocket = true; tls_rustls = false }

abbrev pub library : Library
library = record {
  Broker = Text;
  tcp_broker = λ host port. host;
  websocket_broker = λ url. some url;
  display = λ port. codes "8000";
}

abbrev some_backend : MqttOptions ℕ ℕ Text
some_backend = record {
  client_id = codes "b";
  broker = some_url.as_str;
  keep_alive = 30;
  clean_session = false;
  transport = ws;
  credentials = some (record { username = codes "u"; password = [] });
  last_will = none;
}

backend_made : to_backend_v4 features library some_options ≡ ok some_backend
unfolding to_backend_v4 keep_alive_secs base_backend_options backend_transport
backend_made = refl

to_backend_v4-ok_example :
    (some_options.protocol ≡ v4)
    × (30 * second ≡ some_options.keep_alive)
    × (30 < 2 ^ 16)
    × (some_options.session ≡ (if false then clean_per_connection else resume))
    × ((false || not (is_empty (codes "b"))) ≡ true)
    × (codes "b" ≡ codes "b")
to_backend_v4-ok_example = to_backend_v4-ok features library some_options some_backend backend_made

abbrev bound_builder : SubscriptionBuilder ℕ
bound_builder = record (new_builder pattern) {
  pattern = record pattern { parameter_bindings = some ((codes "id", codes "7") ∷ []) };
}

builder_bound : bind_parameter (new_builder pattern) (codes "id") (codes "7") ≡ ok bound_builder
unfolding bind_parameter Binding.bind_parameter Map.insert
builder_bound = refl

with_pattern-bind_parameter_example :
    with_pattern bound_builder (ok pattern) ≡ with_pattern (new_builder pattern) (ok pattern)
with_pattern-bind_parameter_example =
    with_pattern-bind_parameter (new_builder pattern) bound_builder (codes "id") (codes "7")
      (ok pattern) builder_bound
