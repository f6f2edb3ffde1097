-- ===== src/Topic/Qos.antt =====
-- mqtt-topic-engine/src/qos.rs: the levels, with the order that is derived from the discriminants.
use mqtt_typed_client_next.Base.{ℕ, Bool, ltb}

pub data QoS : Type 0 where
  at_most_once at_least_once exactly_once : QoS

-- `qos as u8`.
abbrev pub level : QoS → ℕ
level at_most_once = 0
level at_least_once = 1
level exactly_once = 2

-- `a < b` of the derived `PartialOrd`.
abbrev pub qos_lt : QoS → QoS → Bool
qos_lt a b = ltb (level a) (level b)
