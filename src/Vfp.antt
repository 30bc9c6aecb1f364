-- ===== src/Vfp.antt =====
-- internal/vfp/message: the VFP messages, their values on the wire and their codec.
pub mod Runs
pub mod Kinds
pub mod Values
pub mod Message
pub mod Control
pub mod Durable
pub mod Decode
pub mod Encode
pub mod Stream
pub mod RoundTrip
