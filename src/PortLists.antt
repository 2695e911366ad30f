-- ===== src/PortLists.antt =====
-- src/lib/utils/port-format.ts: the list of a container's ports that is shown. A port has either spelling
-- of its fields in the source, and one here; its private port is always given.
pub mod Format
pub mod Coverage
mod Tests
