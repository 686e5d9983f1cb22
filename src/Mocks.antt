-- ===== src/Mocks.antt =====
-- The mock servers at run time: which of them runs at an endpoint, and which route answers a request.
-- app/mock_servers/services/runtime
pub mod Runtime
pub mod Registry
pub mod Match
mod Tests
