-- ===== src/Macros.antt =====
-- macros/src: the attribute macro `mqtt_topic`. The crates `syn` and `quote` are not in the
-- repository: what they parse is a value of Syntax, and what the macro emits is a value of Codegen.
pub mod Syntax
pub mod Naming
pub mod Analysis
pub mod Args
pub mod Codegen
pub mod Generated
pub mod RoundTrip
