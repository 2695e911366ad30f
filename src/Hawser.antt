-- ===== src/Hawser.antt =====
-- src/lib/server/hawser.ts: the agents of edge environments, which connect by a WebSocket. A socket and
-- an object of a connection have a number, a request has the text of its id; what the code does to
-- sockets, promises and callbacks are effects, in order.
pub mod Throttle
pub mod State
pub mod Requests
pub mod Connections
pub mod Calls
pub mod ConsistencyLaws
pub mod AbandonLaws
pub mod SettlementLaws
pub mod EndingLaws
pub mod Protocol
pub mod Operations
pub mod ThrottleLaws
pub mod CleanupLaws
pub mod ProtocolLaws
pub mod VouchedLaws
pub mod AgentEvents
pub mod AgentEventLaws
mod AgentEventTests
mod Tests
