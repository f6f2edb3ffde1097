-- ===== src/Client.antt =====
-- core/src: the start and the loop of the connection, its options, the subscription manager and the
-- handle of a subscription.
pub mod Bootstrap
pub mod Builder
pub mod EventLoop
pub mod Manager
pub mod Options
pub mod Subscriber
pub mod Typed
pub mod Publisher
