-- ===== src/Topic.antt =====
-- mqtt-topic-engine: patterns, topics, the matching trie and the router.
pub mod Qos
pub mod Item
pub mod Filter
pub mod Matcher
pub mod Cache
pub mod TopicMatch
pub mod PatternPath
pub mod Router
pub mod Validation
