-- ===== src/Protocol.antt =====
-- The modules of rsdhcp/src/protocol.
pub mod Fqdn
pub mod Errors
pub mod Enums
pub mod Bytes
pub mod Value
pub mod Option
pub mod Options
pub mod Packet
