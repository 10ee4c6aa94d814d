-- ===== src/Remote/Upload/Accounts.antt =====
-- internal/remote/upload.go: every way in which `uploadLanes` ends.
use winsh.Remote.Session.{Session}
