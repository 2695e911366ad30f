-- ===== src/SseParser.antt =====
-- src/lib/server/sse-parser.ts: reading the result event out of a stream of server-sent events. The texts
-- that the decoder yields are a list, and `JSON.parse` is an argument, in which `some none` is JSON's null.
pub mod Parser
pub mod Lines
pub mod Streaming
mod Tests
