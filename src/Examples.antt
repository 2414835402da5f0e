-- ===== src/Examples.antt =====
-- The theorems on concrete inputs.
pub mod Numbers
pub mod Texts
pub mod Messages
pub mod Queues
pub mod Gamepads
pub mod Audio
pub mod Acks
pub mod Parsers
pub mod Windows
pub mod Streams
pub mod Devices
pub mod Keys
pub mod Options
