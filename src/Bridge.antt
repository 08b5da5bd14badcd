-- ===== src/Bridge.antt =====
-- The bridge protocol: apps/host_agent/src/core/bridge_message_parser.cpp.
pub mod Calendar
pub mod Timestamp
pub mod Messages
pub mod Parser
