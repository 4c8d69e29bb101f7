-- ===== src/Tests.antt =====
-- The theorems at concrete inputs, and runs of the definitions.
mod Wire
mod Exchanges
mod Runtime
mod Attempts
mod Bodies
mod Connections
mod Events
mod Delivery
mod Preparing
mod Documents
