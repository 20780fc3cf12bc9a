-- ===== src/Messages/Functions.antt =====
-- The functions that protoc-c generates for the eight messages, src/protobuf/*.pb-c.c, together.
pub mod Image
pub mod Module
pub mod Pipeline
pub mod Dtp
pub mod Guards
pub mod Codec
