-- ===== src/Client/Options/FromUrl.antt =====
-- What `from_url` reads from a URL.
use mqtt_typed_client_next.Base.{
  ℕ, ◌*◌, Bool, true, false, ◌||◌, Option, none, some, List, [], ◌∷◌, any, ok, err, if◌then◌else◌,
  ◌==◌, ◌≡◌, refl, sym, ap, ◌∙◌, >>=-eq-ok, ok-injective, Bool-cases, inl, inr,
}
use mqtt_typed_client_next.Base.Text.{Text, codes, text_Eq, is_empty}
use mqtt_typed_client_next.Client.Options.Scheme.{IsKnown, same_IsKnown, by_scheme-IsKnown}
use mqtt_typed_client_next.Client.Options.{
  second, clean_per_connection, resume, ConnectionOptions, UrlParseError, invalid_param, Url,
  parse_u64, parse_bool, protocol_of, ok_or, set_param, query_loop, from_url, moved_to_escape_hatch,
  option_or, missing_client_id, host_of, invalid, by_scheme, new_options, credentials_of,
  default_protocol,
}

-- The value of the last pair with a key.
abbrev pub last_value : Text → List (Text × Text) → Option Text
last_value key [] = none
last_value key ((k, value) ∷ pairs) = elim (last_value key pairs) [
  | some later ↦ some later
  | none ↦ if k == key then some value else none
]

abbrev has : Option Text → Bool
has none = false
has (some _) = true

has-some : (v : Option Text) (d : Text) → has v ≡ true → v ≡ some (option_or v d)
has-some (some v) d h = refl
has-some none d h = absurd (cc)

host_of-ok :
    (h : Option Text) (host : Text)
    → host_of h ≡ ok host
    → (h ≡ some host) × (is_empty host ≡ false)
host_of-ok none host e = absurd (cc)
host_of-ok (some []) host e = absurd (cc)
host_of-ok (some (c ∷ t)) host e = (ap some (ok-injective e), rw (sym (ok-injective e)) refl)

ok_or-ok : (u : Option Url) (url : Url) (e : UrlParseError) → ok_or u e ≡ ok url → u ≡ some url
ok_or-ok none url e run = absurd (cc)
ok_or-ok (some u) url e run = ap some (ok-injective run)

module _ {T L : Type 0} where
  -- A pair of the query leaves everything but what it names.
  record Sets (key value : Text) (o o' : ConnectionOptions T L) : Type 0 where
    named : o'.client_id ≡ (if key == codes "client_id" then value else o.client_id)
    host : o'.host ≡ o.host
    port : o'.port ≡ o.port
    transport : o'.transport ≡ o.transport
    websocket_url : o'.websocket_url ≡ o.websocket_url
    credentials : o'.credentials ≡ o.credentials

  Sets-other :
      (key value : Text) (o new o' : ConnectionOptions T L)
      → (key == codes "client_id") ≡ false
      → new.client_id ≡ o.client_id
      → new.host ≡ o.host
      → new.port ≡ o.port
      → new.transport ≡ o.transport
      → new.websocket_url ≡ o.websocket_url
      → new.credentials ≡ o.credentials
      → new ≡ o'
      → Sets key value o o'
  Sets-other key value o new o' other a b c d f g e = record {
    named = rw other (ap (λ x. x.client_id) (sym e) ∙ a);
    host = ap (λ x. x.host) (sym e) ∙ b;
    port = ap (λ x. x.port) (sym e) ∙ c;
    transport = ap (λ x. x.transport) (sym e) ∙ d;
    websocket_url = ap (λ x. x.websocket_url) (sym e) ∙ f;
    credentials = ap (λ x. x.credentials) (sym e) ∙ g;
  }

  set_other-Sets :
      (key value : Text) (o o' : ConnectionOptions T L)
      → (key == codes "client_id") ≡ false
      → set_param key value o ≡ ok o'
      → Sets key value o o'
  unfolding set_param
  set_other-Sets key value o o' other run = elim (Bool-cases (key == codes "keep_alive_secs")) [
    | inl a ↦
        let (secs, read, run') =
          >>=-eq-ok (ok_or (parse_u64 value) (invalid_param key)) _
            (rw (other, a, set_param) at run) in
        Sets-other key value o (record o { keep_alive = secs * second }) o' other refl refl refl
          refl refl refl (ok-injective run')
    | inr a ↦ elim (Bool-cases (key == codes "clean_session")) [
      | inl b ↦
          let (clean, read, run') =
            >>=-eq-ok (ok_or (parse_bool value) (invalid_param key)) _
              (rw (other, a, b, set_param) at run) in
          Sets-other key value o
            (record o { session = if clean then clean_per_connection else resume }) o' other refl
            refl refl refl refl refl (ok-injective run')
      | inr b ↦ elim (Bool-cases (key == codes "protocol")) [
        | inl c ↦
            let (version, read, run') =
              >>=-eq-ok (protocol_of value) _ (rw (other, a, b, c, set_param) at run) in
            Sets-other key value o (record o { protocol = version }) o' other refl refl refl refl
              refl refl (ok-injective run')
        | inr c ↦ elim (Bool-cases (key == codes "conn_timeout_secs")) [
          | inl d ↦ absurd (cc (rw (other, a, b, c, d, set_param) at run))
          | inr d ↦ elim (Bool-cases (any (λ moved. moved == key) moved_to_escape_hatch)) [
            | inl e ↦ absurd (cc (rw (other, a, b, c, d, e, set_param) at run))
            | inr e ↦ absurd (cc (rw (other, a, b, c, d, e, set_param) at run))
          ]
        ]
      ]
    ]
  ]

  set_param-Sets :
      (key value : Text) (o o' : ConnectionOptions T L)
      → set_param key value o ≡ ok o'
      → Sets key value o o'
  unfolding set_param
  set_param-Sets key value o o' run = elim (Bool-cases (key == codes "client_id")) [
    | inl a ↦
        let e = ok-injective (rw (a, set_param) at run) in
        record {
          named = rw a (sym (ap (λ x. x.client_id) e));
          host = sym (ap (λ x. x.host) e);
          port = sym (ap (λ x. x.port) e);
          transport = sym (ap (λ x. x.transport) e);
          websocket_url = sym (ap (λ x. x.websocket_url) e);
          credentials = sym (ap (λ x. x.credentials) e);
        }
    | inr a ↦ set_other-Sets key value o o' a run
  ]

  -- The options after the query, and whether a client id was seen.
  record Reads (pairs : List (Text × Text)) (o o' : ConnectionOptions T L) (seen seen' : Bool)
      : Type 0 where
    named : o'.client_id ≡ option_or (last_value (codes "client_id") pairs) o.client_id
    found : seen' ≡ (seen || has (last_value (codes "client_id") pairs))
    host : o'.host ≡ o.host
    port : o'.port ≡ o.port
    transport : o'.transport ≡ o.transport
    websocket_url : o'.websocket_url ≡ o.websocket_url
    credentials : o'.credentials ≡ o.credentials

  Reads-cons :
      (key value : Text) (pairs : List (Text × Text)) (o o1 o' : ConnectionOptions T L)
      (seen seen' : Bool)
      → Sets key value o o1
      → Reads pairs o1 o' (seen || (key == codes "client_id")) seen'
      → Reads ((key, value) ∷ pairs) o o' seen seen'
  Reads-cons key value pairs o o1 o' seen seen' s r = record {
    named =
        r.named
        ∙ named_cons (last_value (codes "client_id") pairs) (key == codes "client_id") s.named;
    found =
        r.found ∙ found_cons (last_value (codes "client_id") pairs) (key == codes "client_id") seen;
    host = r.host ∙ s.host;
    port = r.port ∙ s.port;
    transport = r.transport ∙ s.transport;
    websocket_url = r.websocket_url ∙ s.websocket_url;
    credentials = r.credentials ∙ s.credentials;
  }
    where
      named_cons :
          (later : Option Text) (here : Bool)
          → o1.client_id ≡ (if here then value else o.client_id)
          → option_or later o1.client_id
            ≡ option_or
                (elim later [ some v ↦ some v | none ↦ if here then some value else none ])
                o.client_id
      named_cons (some v) here e = refl
      named_cons none true e = e
      named_cons none false e = e

      found_cons :
          (later : Option Text) (here seen : Bool)
          → ((seen || here) || has later) ≡ (
              seen
              || has (elim later [ some v ↦ some v | none ↦ if here then some value else none ]))
      found_cons (some v) true true = refl
      found_cons (some v) true false = refl
      found_cons (some v) false true = refl
      found_cons (some v) false false = refl
      found_cons none true true = refl
      found_cons none true false = refl
      found_cons none false true = refl
      found_cons none false false = refl

  query_loop-Reads :
      (pairs : List (Text × Text)) (o o' : ConnectionOptions T L) (seen seen' : Bool)
      → query_loop pairs o seen ≡ ok (o', seen')
      → Reads pairs o o' seen seen'
  unfolding query_loop
  query_loop-Reads [] o o' seen seen' run =
      let e = ok-injective run in
      record {
        named = sym (ap (λ x. x.0.client_id) e);
        found = sym (ap (λ x. x.1) e) ∙ same_or seen;
        host = sym (ap (λ x. x.0.host) e);
        port = sym (ap (λ x. x.0.port) e);
        transport = sym (ap (λ x. x.0.transport) e);
        websocket_url = sym (ap (λ x. x.0.websocket_url) e);
        credentials = sym (ap (λ x. x.0.credentials) e);
      }
    where
      same_or : (b : Bool) → b ≡ (b || false)
      same_or true = refl
      same_or false = refl
  query_loop-Reads ((key, value) ∷ pairs) o o' seen seen' run =
      let (o1, set, run') = >>=-eq-ok (set_param key value o) _ run in
      Reads-cons key value pairs o o1 o' seen seen' (set_param-Sets key value o o1 set)
        (query_loop-Reads pairs o1 o' (seen || (key == codes "client_id")) seen' run')

  seen_only :
      {o options : ConnectionOptions T L} (seen : Bool)
      → (if seen then ok o else err missing_client_id) ≡ ok options
      → (seen ≡ true) × (o ≡ options)
  seen_only true e = (refl, ok-injective e)
  seen_only false e = absurd (cc)

module _ {T L : Type 0} where
  -- A URL that is accepted has been parsed, has a client id in its query, of which the last one
  -- counts, and a host that is not empty. Its scheme is `mqtt` or `tcp` for TCP with default port
  -- 1883, `mqtts` or `ssl` for TLS with 8883, `ws` for a WebSocket with 8000, or `wss` for one over
  -- TLS with 8000. The port is the one it names or this default. A WebSocket keeps the URL itself.
  -- There are credentials exactly where the URL has a user name, with its password or an empty one.
  pub from_url-ok :
      (rumqttc_v4 rumqttc_v5 : Bool) (parse : Text → Option Url) (text : Text)
      (options : ConnectionOptions T L)
      → from_url rumqttc_v4 rumqttc_v5 parse text ≡ ok options
      → (url : Url) × (default_port : ℕ) × (parse text ≡ some url)
        × (last_value (codes "client_id") url.query_pairs ≡ some options.client_id)
        × (url.host_str ≡ some options.host)
        × (is_empty options.host ≡ false)
        × IsKnown url options.transport default_port options.websocket_url
        × (options.port ≡ option_or url.port default_port)
        × (options.credentials ≡ (
            if is_empty url.username
            then none
            else some (record { username = url.username; password = option_or url.password [] })))
  unfolding from_url
  from_url-ok rumqttc_v4 rumqttc_v5 parse text options run =
      let (url, parsed, run1) = >>=-eq-ok (ok_or (parse text) invalid) _ run in
      let ((transport, default_port, websocket_url), scheme_run, run2) =
        >>=-eq-ok (by_scheme url) _ run1 in
      let (host, named_host, run3) = >>=-eq-ok (host_of url.host_str) _ run2 in
      let first : ConnectionOptions T L =
        record (new_options (default_protocol rumqttc_v4 rumqttc_v5) [] host
          (option_or url.port default_port)) {
            transport = transport;
            websocket_url = websocket_url;
            credentials = credentials_of url;
          } in
      let ((o, seen), looped, run4) = >>=-eq-ok (query_loop url.query_pairs first false) _ run3 in
      let (is_seen, same) = seen_only seen run4 in
      let r = query_loop-Reads url.query_pairs first o false seen looped in
      let (host_there, host_full) = host_of-ok url.host_str host named_host in
      let same_host : options.host ≡ host = ap (λ x. x.host) (sym same) ∙ r.host in
      (
        url,
        default_port,
        ok_or-ok (parse text) url invalid parsed,
        has-some (last_value (codes "client_id") url.query_pairs) [] (sym r.found ∙ is_seen)
            ∙ ap some (sym r.named ∙ ap (λ x. x.client_id) same),
        rw same_host host_there,
        rw same_host host_full,
        same_IsKnown url default_port (ap (λ x. x.transport) (sym same) ∙ r.transport)
            (ap (λ x. x.websocket_url) (sym same) ∙ r.websocket_url)
            (by_scheme-IsKnown url transport default_port websocket_url scheme_run),
        ap (λ x. x.port) (sym same) ∙ r.port,
        ap (λ x. x.credentials) (sym same) ∙ r.credentials,
      )
