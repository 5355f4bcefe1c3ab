-- ===== src/DataBus.antt =====
-- DelegateMQ/extras/databus: topics with subscribers in this process and on remote nodes. `Bus` is the
-- central registry DataBus.h, `Participant` a remote node, `History` its filter of repeated messages,
-- `Latch` the errors that are reported once, and `Limiter` the QoS of a subscriber.
pub mod History
pub mod Latch
pub mod Limiter
pub mod Participant
pub mod Bus
pub mod Publish
pub mod Registry
pub mod Typed
pub mod Quiet
pub mod Delivery
pub mod LastValue
mod Tests
