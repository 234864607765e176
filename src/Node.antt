-- ===== src/Node.antt =====
-- The folder node/: the node, its configuration, its RPC endpoints and its lifecycle.
pub mod Config
pub mod World
pub mod State
pub mod Endpoints
pub mod Startup
pub mod Lifecycle
pub mod Api
pub mod Paths
