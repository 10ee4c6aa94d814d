-- ===== src/Control.antt =====
-- internal/control: the local command master and its frame protocol.
pub mod Category
pub mod Protocol
pub mod Server
pub mod Wire
pub mod Sockets
pub mod Startup
pub mod Client
pub mod Handler
