-- ===== src/EventBus.antt =====
-- core/eventbus: the in-process event bus.
--
-- Events are `eventbus.Event`; a handler is a function value, known by the code pointer that `%p`
-- prints and by the closure, or one of the wrappers that the bus builds around one.
mod Delivery
mod Bus
mod Subscribe
pub mod Fifo
pub mod Dispatch
pub mod Removal
pub mod Identity
pub mod Joining
pub mod Turns
pub mod Steps
pub mod OneShot
pub mod Closed
mod Samples
unfoldable pub use Delivery.*
unfoldable pub use Bus.*
unfoldable pub use Subscribe.*
