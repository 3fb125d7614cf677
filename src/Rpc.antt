-- ===== src/Rpc.antt =====
-- pkg/protocol/jsonrpc.go and internal/rpc/codec.go.
pub mod Protocol
pub mod Codec
mod Tests
