-- ===== src/Interceptors.antt =====
-- pkg/interceptors and pkg/observability: what wraps every RPC.
pub mod Context
pub mod Server
pub mod Auth
pub mod Limits
pub mod Telemetry
pub mod Chain
pub mod Streams
