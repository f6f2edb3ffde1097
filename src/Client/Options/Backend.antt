-- ===== src/Client/Options/Backend.antt =====
-- `to_backend_v4` of connection_options.rs: the checks before the options reach the client library.
use mqtt_typed_client_next.Base.{
  ℕ, ◌*◌, ◌^◌, ◌<◌, Bool, true, false, ◌&&◌, ◌||◌, not, Option, [], ◌∷◌, ◌++◌, Result, ok, err,
  ◌>>=◌, if◌then◌else◌, ltb, nat_eq, ◌≡◌, refl, sym, ap, ◌∙◌, arith, >>=-eq-ok, ok-injective,
}
use mqtt_typed_client_next.Base.Text.{Text, codes, text_Eq, is_empty}
use mqtt_typed_client_next.Client.Options.{
  second, as_secs, subsec_nanos, Credentials, SessionPolicy, clean_per_connection, resume,
  resume_for, ProtocolVersion, v4, v5, Transport, tcp, ws, tls, wss, ConnectionOptions, option_or,
  ok_or,
}

-- `MqttClientError::ConfigurationValue` with its messages.
pub data ConfigurationValue : Type 0 where
  v5_required keep_alive_below_second keep_alive_not_whole keep_alive_too_long
        resume_for_is_v5_only :
      ConfigurationValue
  client_id_required websocket_missing tls_missing broker_invalid : ConfigurationValue
  v4_required resume_for_not_whole resume_for_too_long : ConfigurationValue

-- The features of the build that matter here: `websocket`, and one of those for rustls.
pub record Features : Type 0 where
  pub websocket : Bool
  pub tls_rustls : Bool

-- What of the client library is called: its brokers, the one for a WebSocket fallible, and its text
-- of a port.
pub record Library : Type 1 where
  pub Broker : Type 0
  pub tcp_broker : Text → ℕ → Broker
  pub websocket_broker : Text → Option Broker
  pub display : ℕ → Text

-- What is set on the library's options.
pub record MqttOptions (T L B : Type 0) : Type 0 where
  pub client_id : Text
  pub broker : B
  pub keep_alive : ℕ
  pub clean_session : Bool
  pub transport : Transport T
  pub credentials : Option Credentials
  pub last_will : Option L

unfoldable pub keep_alive_secs :
    {T L : Type 0} → ConnectionOptions T L → Result ℕ ConfigurationValue
keep_alive_secs options =
    if not (nat_eq options.keep_alive 0) && ltb options.keep_alive second
    then err keep_alive_below_second
    else if not (nat_eq (subsec_nanos options.keep_alive) 0)
    then err keep_alive_not_whole
    else if ltb (as_secs options.keep_alive) (2 ^ 16)
    then ok (as_secs options.keep_alive)
    else err keep_alive_too_long

abbrev pub transport_of :
    {T : Type 0} → Features → Transport T → Result (Transport T) ConfigurationValue
transport_of features tcp = ok tcp
transport_of features (tls config) =
    if features.tls_rustls then ok (tls config) else err tls_missing
transport_of features ws = if features.websocket then ok ws else err websocket_missing
transport_of features (wss config) =
    if features.websocket
    then (if features.tls_rustls then ok (wss config) else err tls_missing)
    else err websocket_missing

abbrev pub speaks_v4 : ProtocolVersion → Result (Unit {0}) ConfigurationValue
speaks_v4 v4 = ok tt
speaks_v4 v5 = err v5_required

abbrev pub clean_session_of : SessionPolicy → Result Bool ConfigurationValue
clean_session_of clean_per_connection = ok true
clean_session_of resume = ok false
clean_session_of (resume_for duration) = err resume_for_is_v5_only

abbrev pub named_if_kept : Bool → Text → Result (Unit {0}) ConfigurationValue
named_if_kept clean client_id =
    if not clean && is_empty client_id then err client_id_required else ok tt

speaks_v4-ok : (version : ProtocolVersion) {u : Unit {0}} → speaks_v4 version ≡ ok u → version ≡ v4
speaks_v4-ok v4 run = refl
speaks_v4-ok v5 run = absurd (cc)

clean_session_of-ok :
    (session : SessionPolicy) (clean : Bool)
    → clean_session_of session ≡ ok clean
    → session ≡ (if clean then clean_per_connection else resume)
clean_session_of-ok clean_per_connection clean run = rw (sym (ok-injective run)) refl
clean_session_of-ok resume clean run = rw (sym (ok-injective run)) refl
clean_session_of-ok (resume_for duration) clean run = absurd (cc)

named_if_kept-ok :
    (clean : Bool) (client_id : Text)
    → named_if_kept clean client_id ≡ ok tt
    → (clean || not (is_empty client_id)) ≡ true
named_if_kept-ok true client_id run = refl
named_if_kept-ok false [] run = absurd (cc)
named_if_kept-ok false (c ∷ client_id) run = refl

pub keep_alive_secs-ok :
    {T L : Type 0} (options : ConnectionOptions T L) (secs : ℕ)
    → keep_alive_secs options ≡ ok secs
    → (secs * second ≡ options.keep_alive) × (secs < 2 ^ 16)
unfolding keep_alive_secs
keep_alive_secs-ok options secs run = ground arith

module _ {T L : Type 0} (features : Features) (library : Library) where
  open library use {Broker}

  abbrev pub websocket_url_of : Text → ConnectionOptions T L → Text
  websocket_url_of scheme options =
      option_or options.websocket_url
        (scheme ++ (codes "://" ++ (options.host ++ (codes ":" ++ library.display options.port))))

  abbrev pub websocket_of : Text → ConnectionOptions T L → Result Broker ConfigurationValue
  websocket_of scheme options =
      if features.websocket
      then ok_or (library.websocket_broker (websocket_url_of scheme options)) broker_invalid
      else err websocket_missing

  abbrev pub broker_of : Transport T → ConnectionOptions T L → Result Broker ConfigurationValue
  broker_of tcp options = ok (library.tcp_broker options.host options.port)
  broker_of (tls config) options = ok (library.tcp_broker options.host options.port)
  broker_of ws options = websocket_of (codes "ws") options
  broker_of (wss config) options = websocket_of (codes "wss") options

  unfoldable pub base_backend_options :
      ConnectionOptions T L → Result (Text × Broker) ConfigurationValue
  base_backend_options options =
      broker_of options.transport options >>= λ broker. ok (options.client_id, broker)

  unfoldable pub backend_transport : ConnectionOptions T L → Result (Transport T) ConfigurationValue
  backend_transport options = transport_of features options.transport

  -- The feature `unstable-backend-api` is off.
  unfoldable pub to_backend_v4 :
      ConnectionOptions T L → Result (MqttOptions T L Broker) ConfigurationValue
  unfolding keep_alive_secs base_backend_options backend_transport
  to_backend_v4 options = do
    _ ← speaks_v4 options.protocol
    keep_alive ← keep_alive_secs options
    clean_session ← clean_session_of options.session
    _ ← named_if_kept clean_session options.client_id
    (client_id, broker) ← base_backend_options options
    transport ← backend_transport options
    ok (record {
      client_id = client_id;
      broker = broker;
      keep_alive = keep_alive;
      clean_session = clean_session;
      transport = transport;
      credentials = options.credentials;
      last_will = options.last_will;
    })

  -- Options that pass the checks for MQTT 3.1.1 are for that version, and reach the client library
  -- with the same keep-alive interval, in whole seconds that fit its 16 bits, with the session
  -- policy as its flag, and with a client id that is not empty where the session is kept, which
  -- the library asserts.
  pub to_backend_v4-ok :
      (options : ConnectionOptions T L) (backend : MqttOptions T L Broker)
      → to_backend_v4 options ≡ ok backend
      → (options.protocol ≡ v4)
        × (backend.keep_alive * second ≡ options.keep_alive)
        × (backend.keep_alive < 2 ^ 16)
        × (options.session ≡ (if backend.clean_session then clean_per_connection else resume))
        × ((backend.clean_session || not (is_empty options.client_id)) ≡ true)
        × (backend.client_id ≡ options.client_id)
  unfolding to_backend_v4 base_backend_options
  to_backend_v4-ok options backend run =
      let (u, version, run1) = >>=-eq-ok (speaks_v4 options.protocol) _ run in
      let (secs, alive, run2) = >>=-eq-ok (keep_alive_secs options) _ run1 in
      let (clean, session, run3) = >>=-eq-ok (clean_session_of options.session) _ run2 in
      let (u', named, run4) = >>=-eq-ok (named_if_kept clean options.client_id) _ run3 in
      let (base, made, run5) = >>=-eq-ok (base_backend_options options) _ run4 in
      let (transport, sent, run6) = >>=-eq-ok (backend_transport options) _ run5 in
      let (broker, met, same) = >>=-eq-ok (broker_of options.transport options) _ made in
      let e = ok-injective run6 in
      let (whole, fits) = keep_alive_secs-ok options secs alive in
      let same_secs : backend.keep_alive ≡ secs = sym (ap (λ b. b.keep_alive) e) in
      let same_clean : backend.clean_session ≡ clean = sym (ap (λ b. b.clean_session) e) in
      (
        speaks_v4-ok options.protocol version,
        rw same_secs whole,
        rw same_secs fits,
        rw same_clean (clean_session_of-ok options.session clean session),
        rw same_clean (named_if_kept-ok clean options.client_id named),
        sym (ap (λ b. b.client_id) e) ∙ sym (ap (λ x. x.0) (ok-injective same)),
      )
