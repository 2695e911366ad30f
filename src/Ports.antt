-- ===== src/Ports.antt =====
-- src/lib/utils/port-parse.ts: the ports that the user types, and the bindings that Docker gets.
pub mod HostPort
pub mod Validate
pub mod Expand
pub mod RoundTrip
mod Tests
