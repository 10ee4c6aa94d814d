-- ===== src/Lib.antt =====
-- winsh runs one command, or one file transfer, on a Windows host over WinRM: SOAP messages in HTTP
-- with NTLM. A background master can hold authenticated connections and run commands for clients that
-- reach it over a local socket.
--
-- Parts and files:
--   * Control.Server is the state of `masterServer` in internal/control/server.go, one function per
--     section that the code runs under its mutex. Control.Server.Steps has the interleavings of these
--     sections as a step relation; a channel is counted, so a second close can be seen.
--     Control.Server.Line has the abstract line of commands, and Control.Server.Refinement relates it
--     to the server.
--   * Control.Handler is `handle` of the same file, for the one request of a connection.
--   * Control.Category is `categoryFromError`, and Control.Protocol the frames of
--     internal/control/protocol.go with `writeAll` and the `framedWriter` of server.go.
--   * Control.Wire is what the payloads of the protocol mean, and Control.Sockets is
--     internal/control/socket_unix.go: the checks of a socket and its lock, and the probe of a master.
--   * Control.Startup is `StartOrConnect` and `launchMaster` of internal/control/master_unix.go. A trace
--     lists what the starter did, and the operating system answers as a function of it, so another
--     process may change anything between two steps.
--   * Control.Client is internal/control/client.go over the bytes that the master sends.
--   * Remote.Session is internal/remote/session.go: one function for each exchange and for what follows
--     from its answer. A history lists the exchanges, newest first, and a network answers each one as a
--     function of the earlier ones, so a theorem about every network covers every server and every
--     failure of a connection.
--   * Remote.Response is internal/remote/response.go; Remote.Runner is control_runner.go and runner.go
--     of the same directory, with the receive loop of session.go.
--   * Remote.Poster is internal/remote/persistent.go, a lane that carries one exchange at a time.
--   * Remote.Upload is the finalizer of internal/remote/upload.go, and Remote.Upload.Lanes the rest of
--     it: the streaming, the checks of the stage, and the cleanup.
--   * Remote.LocalFiles is the stage of a download, localfile.go and commit_unix.go, over a function from
--     paths to contents. Remote.Download is download.go with `copyBase64Lines` of transfer_codec.go.
--   * Remote.Codec is internal/remote/transfer_codec.go: lines, chunk sizes and remote paths, with the
--     stage path of upload.go and localfile.go, and the control record.
--   * Remote.Challenge is internal/remote/challenge.go. Remote.Transport is transport.go with
--     `authenticateConnection` of persistent.go.
--   * Config is internal/config/config.go with internal/secret/resolve.go.
--   * Cmd.Status is the exit statuses of internal/cmd/cmd.go, control.go and transfer.go.
--   * Base has the shared tests on numbers, lists, errors and writers; Tests has runs and witnesses.
--
-- How they meet: the master of Control.Server runs a job by `RunWithPosters`, which is Remote.Runner
-- over the session of Remote.Session; the lanes below it are those of Remote.Poster, and the session
-- reads their answers by Remote.Response. Control.Client reads what the master wrote by
-- Control.Protocol. An upload and a download use a session for each of their remote scripts.
-- An error is the list of the sentinel errors that `errors.Is` finds in it; its text is left out.
--
-- Bounds and fuel: `receive_loop` takes fuel, since the code's loop has no bound of its own; one round
-- more than there are exchanges before the context is done is enough. So does `start_rounds`, which ends
-- behind as many rounds as there are waits before the deadline; a transfer passes one fuel to all of its
-- receive loops. `copy_base64_lines` gets more rounds than the text has bytes. `write_rounds`,
-- `framed_rounds` and `search_rounds` get the length of what they have left, and run out only where
-- the code would spin. Numbers of a frame are four bytes, those of an exit code are below 2 ^ 32.
--
-- Parameters: the writers of a caller, Base64, SHA-256, JSON, YAML, XML and HTTP, the NTLM client and
-- its session, and the answers of the operating system.
--
-- Goroutines: those of the master are steps in any order. Those of a transfer and of a command are run
-- one behind another, and each has its own list of exchanges; the answers are functions of these lists,
-- and there is such a function for every interleaving.
--
-- Not modelled: flags and printing of internal/cmd, the edits of a configuration, the serving
-- process of the master beside its state, and the PowerShell scripts, which are input and output of the
-- system.
pub mod Base
pub mod Cmd
pub mod Config
pub mod Control
pub mod Remote
pub mod Tests
