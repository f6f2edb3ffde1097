-- ===== src/Client/Options.antt =====
-- core/src/client/connection_options.rs: options from a URL, and their checks.
pub mod Scheme
pub mod FromUrl
pub mod Backend
pub mod BackendV5
use mqtt_typed_client_next.Base.{
  ℕ, ◌+◌, ◌-◌, ◌*◌, ◌/◌, ◌%◌, ◌^◌, Bool, true, false, ◌&&◌, ◌||◌, not, Option, none, some, List, [],
  ◌∷◌, any, Result, ok, err, ◌>>=◌, if◌then◌else◌, ltb, leb, nat_eq, ◌==◌,
}
use mqtt_typed_client_next.Base.Text.{Text, codes, text_Eq, text_eq, is_empty}

-- Durations are in nanoseconds.
abbrev pub second : ℕ
second = 10 ^ 9

abbrev pub as_secs : ℕ → ℕ
as_secs duration = duration / second

abbrev pub subsec_nanos : ℕ → ℕ
subsec_nanos duration = duration % second

pub record Credentials : Type 0 where
  pub username : Text
  pub password : Text

pub data SessionPolicy : Type 0 where
  clean_per_connection resume : SessionPolicy
  resume_for : ℕ → SessionPolicy

pub data ProtocolVersion : Type 0 where
  v4 v5 : ProtocolVersion

-- `T` is the configuration of a TLS library.
pub data TlsConfig (T : Type 0) : Type 0 where
  default_tls : TlsConfig T
  rustls : T → TlsConfig T

pub data Transport (T : Type 0) : Type 0 where
  tcp ws : Transport T
  tls wss : TlsConfig T → Transport T

-- `L` is a last will.
pub record ConnectionOptions (T L : Type 0) : Type 0 where
  pub client_id : Text
  pub host : Text
  pub port : ℕ
  pub keep_alive : ℕ
  pub credentials : Option Credentials
  pub session : SessionPolicy
  pub protocol : ProtocolVersion
  pub transport : Transport T
  pub websocket_url : Option Text
  pub last_will : Option L

-- Formatted reasons are left out.
pub data UrlParseError : Type 0 where
  invalid missing_host missing_client_id : UrlParseError
  scheme invalid_param unsupported_param unknown_param unsupported_protocol : Text → UrlParseError

-- A URL as the crate `url` has parsed it.
pub record Url : Type 0 where
  pub as_str : Text
  pub scheme : Text
  pub host_str : Option Text
  pub port : Option ℕ
  pub username : Text
  pub password : Option Text
  pub query_pairs : List (Text × Text)

-- The value of decimal digits behind others.
unfoldable pub digits : ℕ → Text → Option ℕ
digits value [] = some value
digits value (c ∷ rest) =
    let more = digits (value * 10 + (c - 48)) rest in if leb 48 c && leb c 57 then more else none

abbrev pub fits_u64 : Option ℕ → Option ℕ
fits_u64 none = none
fits_u64 (some value) = if ltb value (2 ^ 64) then some value else none

abbrev number : Text → Option ℕ
number [] = none
number (c ∷ rest) = fits_u64 (digits 0 (c ∷ rest))

-- `str::parse::<u64>` and `str::parse::<bool>`.
unfoldable pub parse_u64 : Text → Option ℕ
unfolding digits
parse_u64 [] = none
parse_u64 (c ∷ rest) = if nat_eq c 43 then number rest else number (c ∷ rest)

unfoldable pub parse_bool : Text → Option Bool
parse_bool text =
    if text == codes "true" then some true else if text == codes "false" then some false else none

abbrev pub moved_to_escape_hatch : List Text
moved_to_escape_hatch =
    codes "inflight_num"
    ∷ codes "request_channel_capacity_num"
    ∷ codes "max_request_batch_num"
    ∷ codes "pending_throttle_usecs"
    ∷ codes "max_incoming_packet_size_bytes"
    ∷ codes "max_outgoing_packet_size_bytes"
    ∷ []

abbrev pub option_or {ℓ} : {A : Type ℓ} → Option A → A → A
option_or none a = a
option_or (some a) _ = a

abbrev pub ok_or {ℓ κ} : {A : Type ℓ} {E : Type κ} → Option A → E → Result A E
ok_or none e = err e
ok_or (some a) _ = ok a

-- The transport, the default port and the WebSocket URL of a scheme.
unfoldable pub by_scheme : {T : Type 0} → Url → Result (Transport T × ℕ × Option Text) UrlParseError
by_scheme url =
    if (url.scheme == codes "mqtt") || (url.scheme == codes "tcp")
    then ok (tcp, 1883, none)
    else if (url.scheme == codes "mqtts") || (url.scheme == codes "ssl")
    then ok (tls default_tls, 8883, none)
    else if url.scheme == codes "ws"
    then ok (ws, 8000, some url.as_str)
    else if url.scheme == codes "wss"
    then ok (wss default_tls, 8000, some url.as_str)
    else err (UrlParseError.scheme url.scheme)

abbrev pub host_of : Option Text → Result Text UrlParseError
host_of none = err missing_host
host_of (some host) = if is_empty host then err missing_host else ok host

abbrev pub credentials_of : Url → Option Credentials
credentials_of url =
    if is_empty url.username
    then none
    else some (record { username = url.username; password = option_or url.password [] })

abbrev pub protocol_of : Text → Result ProtocolVersion UrlParseError
protocol_of value =
    if value == codes "4"
    then ok v4
    else if value == codes "5"
    then ok v5
    else err (unsupported_protocol value)

-- `Default for ProtocolVersion`, by the features that are enabled.
unfoldable pub default_protocol : (rumqttc_v4 rumqttc_v5 : Bool) → ProtocolVersion
default_protocol true _ = v4
default_protocol false true = v5
default_protocol false false = v4

module _ {T L : Type 0} where
  -- The protocol is the default one.
  abbrev pub new_options : ProtocolVersion → Text → Text → ℕ → ConnectionOptions T L
  new_options protocol client_id host port = record {
    client_id = client_id;
    host = host;
    port = port;
    keep_alive = 60 * second;
    credentials = none;
    session = clean_per_connection;
    protocol = protocol;
    transport = tcp;
    websocket_url = none;
    last_will = none;
  }

  -- A pair of the query: the options after it.
  unfoldable pub set_param :
      Text → Text → ConnectionOptions T L → Result (ConnectionOptions T L) UrlParseError
  unfolding parse_u64 parse_bool
  set_param key value options =
      if key == codes "client_id"
      then ok (record options { client_id = value })
      else if key == codes "keep_alive_secs"
      then (ok_or (parse_u64 value) (invalid_param key) >>= λ secs.
          ok (record options { keep_alive = secs * second }))
      else if key == codes "clean_session"
      then (ok_or (parse_bool value) (invalid_param key) >>= λ clean.
          ok (record options { session = if clean then clean_per_connection else resume }))
      else if key == codes "protocol"
      then (protocol_of value >>= λ version. ok (record options { protocol = version }))
      else if key == codes "conn_timeout_secs"
      then err (invalid_param key)
      else if any (λ moved. moved == key) moved_to_escape_hatch
      then err (unsupported_param key)
      else err (unknown_param key)

  -- The loop over the query, and whether a client id was seen.
  unfoldable pub query_loop :
      List (Text × Text)
      → ConnectionOptions T L
      → Bool
      → Result (ConnectionOptions T L × Bool) UrlParseError
  unfolding set_param
  query_loop [] options client_id_seen = ok (options, client_id_seen)
  query_loop ((key, value) ∷ pairs) options client_id_seen =
      set_param key value options >>= λ options'.
      query_loop pairs options' (client_id_seen || (key == codes "client_id"))

  -- `parse` is `url::Url::parse`.
  unfoldable pub from_url :
      (rumqttc_v4 rumqttc_v5 : Bool)
      → (Text → Option Url)
      → Text
      → Result (ConnectionOptions T L) UrlParseError
  unfolding default_protocol by_scheme query_loop
  from_url rumqttc_v4 rumqttc_v5 parse text = do
    url ← ok_or (parse text) invalid
    (transport, default_port, websocket_url) ← by_scheme url
    host ← host_of url.host_str
    (options, client_id_seen) ←
        query_loop url.query_pairs
          (record (new_options (default_protocol rumqttc_v4 rumqttc_v5) [] host
            (option_or url.port default_port)) {
              transport = transport;
              websocket_url = websocket_url;
              credentials = credentials_of url;
            })
          false
    if client_id_seen then ok options else err missing_client_id
