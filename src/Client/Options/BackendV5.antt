-- ===== src/Client/Options/BackendV5.antt =====
-- `to_backend_v5` of connection_options.rs, which a build without the feature for MQTT 3.1.1 has.
use mqtt_typed_client_next.Base.{
  ℕ, ◌*◌, ◌^◌, ◌<◌, Bool, true, false, ◌&&◌, ◌||◌, not, Option, [], ◌∷◌, Result, ok, err, ◌>>=◌,
  if◌then◌else◌, ltb, nat_eq, ◌≡◌, refl, sym, ap, ◌∙◌, arith, >>=-eq-ok, ok-injective, Bool-cases,
  inl, inr,
}
use mqtt_typed_client_next.Base.Text.{Text, is_empty}
use mqtt_typed_client_next.Client.Options.{
  second, as_secs, subsec_nanos, Credentials, SessionPolicy, clean_per_connection, resume,
  resume_for, ProtocolVersion, v4, v5, Transport, ConnectionOptions,
}
use mqtt_typed_client_next.Client.Options.Backend.{
  ConfigurationValue, v4_required, client_id_required, resume_for_not_whole, resume_for_too_long,
  Features, Library, keep_alive_secs, keep_alive_secs-ok, base_backend_options, broker_of,
  backend_transport,
}

-- What is set of the session: the clean-start flag with an expiry interval, or the library's
-- persistent mode.
pub data SessionSetting : Type 0 where
  clean_start : Bool → (session_expiry_interval : ℕ) → SessionSetting
  persistent : SessionSetting

-- What is set on the library's options.
pub record MqttOptions (T L B : Type 0) : Type 0 where
  pub client_id : Text
  pub broker : B
  pub keep_alive : ℕ
  pub session : SessionSetting
  pub transport : Transport T
  pub credentials : Option Credentials
  pub last_will : Option L

abbrev pub speaks_v5 : ProtocolVersion → Result (Unit {0}) ConfigurationValue
speaks_v5 v4 = err v4_required
speaks_v5 v5 = ok tt

abbrev pub is_clean : SessionPolicy → Bool
is_clean clean_per_connection = true
is_clean resume = false
is_clean (resume_for duration) = false

abbrev pub named_if_resumed : SessionPolicy → Text → Result (Unit {0}) ConfigurationValue
named_if_resumed session client_id =
    if not (is_clean session) && is_empty client_id then err client_id_required else ok tt

-- The seconds of a `Duration`, as a `u32`.
unfoldable pub session_setting : SessionPolicy → Result SessionSetting ConfigurationValue
session_setting clean_per_connection = ok (clean_start true 0)
session_setting resume = ok persistent
session_setting (resume_for duration) =
    if not (nat_eq (subsec_nanos duration) 0)
    then err resume_for_not_whole
    else if ltb (as_secs duration) (2 ^ 32)
    then ok (clean_start false (as_secs duration))
    else err resume_for_too_long

-- The session that is set is the one that is asked for.
abbrev pub IsSetting : SessionPolicy → SessionSetting → Type 0
IsSetting clean_per_connection setting = setting ≡ clean_start true 0
IsSetting resume setting = setting ≡ persistent
IsSetting (resume_for duration) setting =
    (secs : ℕ) × (setting ≡ clean_start false secs) × (secs * second ≡ duration) × (secs < 2 ^ 32)

session_setting-IsSetting :
    (session : SessionPolicy) (setting : SessionSetting)
    → session_setting session ≡ ok setting
    → IsSetting session setting
unfolding session_setting
session_setting-IsSetting clean_per_connection setting run = sym (ok-injective run)
session_setting-IsSetting resume setting run = sym (ok-injective run)
session_setting-IsSetting (resume_for duration) setting run =
    elim (Bool-cases (nat_eq (subsec_nanos duration) 0)) [
      | inr part ↦ absurd (cc (rw part at run))
      | inl whole ↦ elim (Bool-cases (ltb (as_secs duration) (2 ^ 32))) [
        | inr long ↦ absurd (cc (rw (whole, long) at run))
        | inl fits ↦ (
          as_secs duration,
          sym (ok-injective (rw (whole, fits) at run)),
          ground arith,
          ground arith,
        )
      ]
    ]

speaks_v5-ok : (version : ProtocolVersion) {u : Unit {0}} → speaks_v5 version ≡ ok u → version ≡ v5
speaks_v5-ok v4 run = absurd (cc)
speaks_v5-ok v5 run = refl

named_if_resumed-ok :
    (session : SessionPolicy) (client_id : Text) {u : Unit {0}}
    → named_if_resumed session client_id ≡ ok u
    → (is_clean session || not (is_empty client_id)) ≡ true
named_if_resumed-ok clean_per_connection client_id run = refl
named_if_resumed-ok resume [] run = absurd (cc)
named_if_resumed-ok resume (c ∷ client_id) run = refl
named_if_resumed-ok (resume_for d) [] run = absurd (cc)
named_if_resumed-ok (resume_for d) (c ∷ client_id) run = refl

module _ {T L : Type 0} (features : Features) (library : Library) where
  open library use {Broker}

  -- The feature `unstable-backend-api` is off.
  unfoldable pub to_backend_v5 :
      ConnectionOptions T L → Result (MqttOptions T L Broker) ConfigurationValue
  unfolding keep_alive_secs base_backend_options backend_transport session_setting
  to_backend_v5 options = do
    _ ← speaks_v5 options.protocol
    keep_alive ← keep_alive_secs options
    _ ← named_if_resumed options.session options.client_id
    (client_id, broker) ← base_backend_options features library options
    session ← session_setting options.session
    transport ← backend_transport features library options
    ok (record {
      client_id = client_id;
      broker = broker;
      keep_alive = keep_alive;
      session = session;
      transport = transport;
      credentials = options.credentials;
      last_will = options.last_will;
    })

  -- Options that pass the checks for MQTT 5 are for that version, and reach the client library with
  -- the same keep-alive interval, in whole seconds that fit its 16 bits, and with the session that
  -- is asked for: a clean start with expiry 0, the persistent mode, or no clean start with an
  -- expiry of exactly the given time, in whole seconds that fit 32 bits. The client id is not empty
  -- where the session is resumed.
  pub to_backend_v5-ok :
      (options : ConnectionOptions T L) (backend : MqttOptions T L Broker)
      → to_backend_v5 options ≡ ok backend
      → (options.protocol ≡ v5)
        × (backend.keep_alive * second ≡ options.keep_alive)
        × (backend.keep_alive < 2 ^ 16)
        × IsSetting options.session backend.session
        × ((is_clean options.session || not (is_empty options.client_id)) ≡ true)
        × (backend.client_id ≡ options.client_id)
  unfolding to_backend_v5 base_backend_options
  to_backend_v5-ok options backend run =
      let (u, version, run1) = >>=-eq-ok (speaks_v5 options.protocol) _ run in
      let (secs, alive, run2) = >>=-eq-ok (keep_alive_secs options) _ run1 in
      let (u', named, run3) =
        >>=-eq-ok (named_if_resumed options.session options.client_id) _ run2 in
      let (base, made, run4) = >>=-eq-ok (base_backend_options features library options) _ run3 in
      let (session, set, run5) = >>=-eq-ok (session_setting options.session) _ run4 in
      let (transport, sent, run6) = >>=-eq-ok (backend_transport features library options) _ run5 in
      let (broker, met, same) =
        >>=-eq-ok (broker_of features library options.transport options) _ made in
      let e = ok-injective run6 in
      let (whole, fits) = keep_alive_secs-ok options secs alive in
      let same_secs : backend.keep_alive ≡ secs = sym (ap (λ b. b.keep_alive) e) in
      let same_session : backend.session ≡ session = sym (ap (λ b. b.session) e) in
      (
        speaks_v5-ok options.protocol version,
        rw same_secs whole,
        rw same_secs fits,
        rw same_session (session_setting-IsSetting options.session session set),
        named_if_resumed-ok options.session options.client_id named,
        sym (ap (λ b. b.client_id) e) ∙ sym (ap (λ x. x.0) (ok-injective same)),
      )
