-- ===== src/Remote.antt =====
-- internal/remote: WinRM sessions, their connections, and file transfer.
pub mod Challenge
pub mod Codec
pub mod Download
pub mod LocalFiles
pub mod Poster
pub mod Response
pub mod Session
pub mod Runner
pub mod Transport
pub mod Upload
