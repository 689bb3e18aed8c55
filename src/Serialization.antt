-- ===== src/Serialization.antt =====
-- hw1-binary-serialization: messages, and their forms in CBOR and BSON.
pub mod Result
pub mod Unless
pub mod Message
pub mod Cbor
pub mod Bson
pub mod Msgpack
pub mod Generate
mod Examples
