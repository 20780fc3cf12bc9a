-- ===== src/Messages.antt =====
-- The generated code of the messages: src/protobuf/*.pb-c.c.
pub mod Descriptors
pub mod Image
pub mod Module
pub mod Pipeline
pub mod Dtp
pub mod Tables
pub mod Schema
pub mod Lookup
pub mod Numbers
pub mod Structs
pub mod Functions
pub mod Samples
pub mod Tests
