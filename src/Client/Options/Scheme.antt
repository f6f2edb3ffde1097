-- ===== src/Client/Options/Scheme.antt =====
-- The schemes of a URL that `from_url` of core/src/client/connection_options.rs takes.
use mqtt_typed_client_next.Base.{
  ℕ, true, ◌||◌, Option, none, some, ok, ◌==◌, ◌⊎◌, ◌≡◌, sym, ap, ok-injective, Bool-cases, inl,
  inr,
}
use mqtt_typed_client_next.Base.Text.{Text, codes, text_Eq, text_eq_iff}
use mqtt_typed_client_next.Client.Options.{
  Url, by_scheme, Transport, tcp, ws, tls, wss, default_tls,
}

-- The schemes that are known, with the transport and the default port of each. For a WebSocket the
-- URL itself is kept.
pub data IsKnown {T : Type 0} (url : Url) (transport : Transport T) (port : ℕ)
    (websocket_url : Option Text) : Type 0 where
  plain :
      (url.scheme ≡ codes "mqtt") ⊎ (url.scheme ≡ codes "tcp")
      → transport ≡ tcp
      → port ≡ 1883
      → websocket_url ≡ none
      → IsKnown url transport port websocket_url
  secure :
      (url.scheme ≡ codes "mqtts") ⊎ (url.scheme ≡ codes "ssl")
      → transport ≡ tls default_tls
      → port ≡ 8883
      → websocket_url ≡ none
      → IsKnown url transport port websocket_url
  web :
      url.scheme ≡ codes "ws"
      → transport ≡ ws
      → port ≡ 8000
      → websocket_url ≡ some url.as_str
      → IsKnown url transport port websocket_url
  secure_web :
      url.scheme ≡ codes "wss"
      → transport ≡ wss default_tls
      → port ≡ 8000
      → websocket_url ≡ some url.as_str
      → IsKnown url transport port websocket_url

either_text : (s t u : Text) → ((s == t) || (s == u)) ≡ true → (s ≡ t) ⊎ (s ≡ u)
either_text s t u h = elim (Bool-cases (s == t)) [
  | inl e ↦ inl ((text_eq_iff s t).0 e)
  | inr e ↦ inr ((text_eq_iff s u).0 (rw e at h))
]

pub same_IsKnown :
    {T : Type 0} (url : Url) (port : ℕ) {t t' : Transport T} {w w' : Option Text}
    → t' ≡ t
    → w' ≡ w
    → IsKnown url t port w
    → IsKnown url t' port w'
same_IsKnown url port e f known = rw (e, f) known

pub by_scheme-IsKnown :
    {T : Type 0} (url : Url) (transport : Transport T) (port : ℕ) (websocket_url : Option Text)
    → by_scheme url ≡ ok (transport, port, websocket_url)
    → IsKnown url transport port websocket_url
unfolding by_scheme
by_scheme-IsKnown url transport port websocket_url run =
    elim (Bool-cases ((url.scheme == codes "mqtt") || (url.scheme == codes "tcp"))) [
      | inl a ↦
          let e = ok-injective (rw (a, by_scheme) at run) in
          plain (either_text url.scheme (codes "mqtt") (codes "tcp") a) (ap (λ x. x.0) (sym e))
            (ap (λ x. x.1) (sym e)) (ap (λ x. x.2) (sym e))
      | inr a ↦ elim (Bool-cases ((url.scheme == codes "mqtts") || (url.scheme == codes "ssl"))) [
        | inl b ↦
            let e = ok-injective (rw (a, b, by_scheme) at run) in
            secure (either_text url.scheme (codes "mqtts") (codes "ssl") b) (ap (λ x. x.0) (sym e))
              (ap (λ x. x.1) (sym e)) (ap (λ x. x.2) (sym e))
        | inr b ↦ elim (Bool-cases (url.scheme == codes "ws")) [
          | inl c ↦
              let e = ok-injective (rw (a, b, c, by_scheme) at run) in
              web ((text_eq_iff url.scheme (codes "ws")).0 c) (ap (λ x. x.0) (sym e))
                (ap (λ x. x.1) (sym e)) (ap (λ x. x.2) (sym e))
          | inr c ↦ elim (Bool-cases (url.scheme == codes "wss")) [
            | inl d ↦
                let e = ok-injective (rw (a, b, c, d, by_scheme) at run) in
                secure_web ((text_eq_iff url.scheme (codes "wss")).0 d) (ap (λ x. x.0) (sym e))
                  (ap (λ x. x.1) (sym e)) (ap (λ x. x.2) (sym e))
            | inr d ↦ absurd (cc (rw (a, b, c, d, by_scheme) at run))
          ]
        ]
      ]
    ]
