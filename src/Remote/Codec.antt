-- ===== src/Remote/Codec.antt =====
-- internal/remote/transfer_codec.go: Base64 line framing, chunk sizing and remote path rules.
pub mod Lines
pub mod Chunk
pub mod Paths
pub mod Records
