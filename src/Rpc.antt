-- ===== src/Rpc.antt =====
-- node/rpcstack.go and node/jwt_handler.go: the RPC servers of a node and their handlers.
pub mod Net
pub mod Handlers
pub mod Gzip
pub mod HttpServer
pub mod IpcServer
