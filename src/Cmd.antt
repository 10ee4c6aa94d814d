-- ===== src/Cmd.antt =====
-- internal/cmd: the exit statuses of the command line.
pub mod Status
