-- ===== src/Lib.antt =====
-- gocs tunnels connections: a client multiplexes the sessions of its proxy servers over a pool of
-- channels to a server, one session at a time on each channel, and the server dials the targets.
--
-- Parts, in the order in which they rest on each other:
-- - Prelude: lists, texts as lists of character codes, maps as association lists, sets of keys;
--   Prelude/Maps has the maps up to what they hold under each key, as quotients.
-- - Errors, GoText: Go's errors and results; what the code uses of strings and strconv.
-- - Ports: parsePortAddr of cs_common.go, parseListenAddr of cs_server.go, and parseConnAddr of
--   cs_client.go with its regular expression.
-- - Channel: ChannelConn of core/cs.go. ReadFrame is read_frame, WriteCommand write_command,
--   WriteFrame write_frame, Close close, Ping ping. The raw connection is the list of its
--   answers.
-- - CoreServer: Server of core/cs.go. ProcConn is proc_conn, its loop serve, Close close_conns.
-- - CoreClient: Client of core/cs.go. pullConn is pull_conn, pushConn push_conn, timeoutConn
--   timeout_conn, Close close_client, DialBack dial_back, DialConn dial_conn, DialPiper
--   dial_piper, PipeConn pipe_conn, and the Close of its piper close_piper. Channels are objects
--   on a heap, which the maps of the client share with the goroutines that use them;
--   CoreClient/Sharing has the steps of the goroutines under the lock, CoreClient/Loop procLoop
--   and testDialer, which sweep the pool and test the dialer in time, CoreClient/Piping httpDial
--   and procForward of cs_client.go, and CoreClient/Tunnel a dial with CoreServer at the other
--   end.
-- - Udpgw: udpgw/udpgw.go, the target tcp://udpgw of a server. procData is proc_data, limitConn
--   limit_conn, the end of procRead end_read, its frames reply_frame, cloaseAllConn close_all,
--   procTimeout proc_timeout, PipeConn pipe_conn. Udpgw/Header has the packets, Udpgw/Timer
--   StartTimeout, StopTimeout and runTimeout with their channels, Udpgw/Registry the gateways in
--   allUDPGW.
-- - Gfw: core/gfw.go, and ReadGfwRules of cs_client.go.
-- - Dialers: core/dialer.go. Dialers/Net has NetDialer and MapAliasURI, Dialers/Pac PACDialer and
--   AutoPACDialer with its cache and the file of it, Dialers/Skip SkipDialer, Dialers/Sorted
--   SortedDialer with its Test, and Dialers/Websocket WebsocketDialer, which dials the channels
--   to a server. The client's proxy servers dial through SkipDialer and PACDialer, which asks
--   Gfw; the pool of CoreClient dials its channels through SortedDialer.
-- - ClientServers: ClientServerDialer and Boostrap of cs_client.go, which makes the SortedDialer.
-- - Files: ReadJSON and WriteJSON of core/utils.go; Files/Saving has what a saved map is when it
--   is read again.
-- - Logs: the log of core/utils.go, which log.go repeats.
-- - Auth: core/auth.go with the user file, and the guard of wsHandler in cs_server.go, which
--   decides who may open a channel to CoreServer. Auth/Refinement sees its users as a map from
--   names to digests; ClientServers/Credentials follows a client's credentials up to the guard.
-- - ClientProgram: Client of cs_client.go around these parts. Start is start, with its parts up
--   to the deferred Stop in acquire and guarded; Stop is stop, RunPrepare run_prepare,
--   ChangeProxyMode change_proxy_mode. What it acquires are numbers, and ghost fields keep what
--   was acquired and given back. ClientProgram/Forwards has the goroutines of startForward as
--   steps, ClientProgram/Handlers the handlers of the manager.
-- - ServerProgram: Server of cs_server.go around these parts. Start is start, runServer begin_run
--   and end_run, ProcRestart pick_restart and respawn, Stop stop; Step has their interleavings,
--   with one ProcRestart at a time. ServerProgram/Handling has DialPiper; wsHandler puts the
--   guard of Auth in front of CoreServer.
-- - Command: coversocks/cs_main.go, and what it calls: StartServer and StopServer of
--   cs_server.go, with the timer of Udpgw, and StartClient and StopClient of cs_client.go.
-- - Witnesses: runs of the theorems at concrete inputs.
--
-- Numbers. Sizes, ports and counts are ℕ; a port is an int64 that was read with 32 bits, so that
-- its loop does not wrap. Times are ℕ of one clock. The loop of ProcConn has fuel, and one round
-- more than the raw connection has answers is enough. Every other loop is over a list or over a
-- count that the code has.
--
-- Not modelled. Libraries are parameters: regexp, base64, the JSON codec, url.Parse, SHA1,
-- float32, sort.Sort, the dialers at the bottom and what a transfer does to a channel. Memory
-- races outside the locks are not modelled. The files, commands and listeners of a Start answer
-- as its environment says, and its listeners have no content. Left out: StateH of both programs
-- and of the gateway and the text of ListUser's page, which are output; the flags and signals of
-- coversocks/cs_main.go, up to what they lead to; the sorts of sort.Sort, which only permute the
-- names here; constructors that fill the options of a library; and the native proxy settings,
-- which are programs of the operating system.
pub mod Auth
pub mod Channel
pub mod ClientProgram
pub mod ClientServers
pub mod Command
pub mod CoreClient
pub mod CoreServer
pub mod Dialers
pub mod Errors
pub mod Files
pub mod Gfw
pub mod GoText
pub mod Logs
pub mod Ports
pub mod Prelude
pub mod ServerProgram
pub mod Udpgw
pub mod Witnesses
