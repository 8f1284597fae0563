-- ===== src/Serializer.antt =====
-- serializer/ and analytics/proto/: how a record travels through the store.
pub mod Message
pub mod Protobuf
pub mod Kind
pub mod RoundTrip
