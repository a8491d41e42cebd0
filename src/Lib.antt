-- ===== src/Lib.antt =====
-- adb-tcp-bridge: a TCP bridge that makes a device behind a local adb or hdc server look like an
-- adbd on the network.
--
-- An adb client connects to a bridge (src/internal/bridge). Its connection is a session: packets of
-- the adb wire protocol (src/internal/adbwire) come in, and each OPEN starts a service, whose
-- goroutine opens the same service on the device through a backend and pumps bytes both ways with one
-- unacknowledged WRTE at a time. The adb backend speaks the host protocol of a local adb server
-- (src/internal/adbhost); the hdc backend translates to a local hdc server (src/internal/hdcserver).
-- Services named "reverse:..." are answered by the session itself, which keeps the listeners of the
-- reverse forwards. A daemon (src/internal/daemon) keeps one bridge for each serial and takes
-- requests of a client (src/internal/client) on a control socket; on a restart it hands its listeners
-- over to a new daemon.
--
-- Common      Lists, bytes and fixed-width integers over the native numbers, and Go's (value, error).
-- Stream      io.ReadFull and io.Writer: the bytes still to come, and a number of writes that succeed.
-- Wire        src/internal/adbwire/packet.go: ReadPacket is read_packet, WritePacket write_packet.
-- Strconv     The parts of strconv and fmt that the protocols use.
-- Strings     The parts of strings and bufio.Scanner that the parsers use.
-- Host        src/internal/adbhost: protocol.go; of client.go OpenService and sendCommand in
--             Host/Dialogue, RunService and ReadProperties in Host/Properties.
-- Service     src/internal/bridge/service.go. The goroutine is cut where it waits (`Phase`), and
--             `step` interleaves it with the acks, closes and data that the session hands over.
-- Reverse     src/internal/bridge/reverse.go; `forward` and `handle` are in Reverse/Forward, for a
--             command that overlaps with no other. Reverse/Overlap cuts a command's goroutine where it
--             waits for the mutex or the device (`Task`); the session runs these parts as its steps.
-- Session     src/internal/bridge/session.go: one definition for each handler, and in Session/Steps
--             the read loop interleaved with the services, the parts of the reverse commands and
--             the reverse connections.
-- Listening   src/internal/bridge/server.go: NewServer and the search for a port.
-- Daemon      src/internal/daemon: manager.go in Daemon/Manager, and what Start and Adopt do
--             before startItem in Daemon/Preparing; handler.go in Daemon/Handler; Run and
--             prepareSocket of server.go in Daemon/Accepting; upgrade_unix.go in Daemon/Handoff.
-- Client      src/internal/client/client.go: call, WaitReady and ensureDaemon.
-- Hdc         src/internal/hdcserver: channel.go in Hdc/Channel, shell.go in Hdc/Shell, file_transfer.go
--             in Hdc/Transfer with pushFile in Hdc/Transfer/Push, sync.go in Hdc/Sync with the remote
--             files in Hdc/Sync/Remote, the answers in Hdc/Sync/Answers and the pipe in Hdc/Sync/Pipe,
--             forward.go in Hdc/Forward, properties.go in Hdc/Properties, and the choice of a service
--             of backend.go in Hdc/Services.
-- Examples    Each theorem with hypotheses at an input of its own.
--
-- State is passed explicitly, and a Go error is a value. Maps are association lists; the order in
-- which Go walks a map is the list's. Integers of a fixed width are natural numbers with their
-- wrap-around written out. A peer, a device and the network are parameters or events with arbitrary
-- contents.
--
-- Fuel: appendProtoVarint has nine rounds, which are enough for a uint64. copyShellV2Input and the loop
-- of handleSend have one round for each byte of their input and one more, where every packet takes
-- five bytes and every request eight bytes at least; runCommand and the output of a shell have one for
-- each byte and one more, where every frame takes four bytes at least. serveSync takes its fuel, one
-- for each request, from its caller, and so do WaitReady and ensureDaemon, whose rounds end with their
-- timeouts. Everything else is structural recursion: the search for a port recurs on the ports that
-- are left.
--
-- Not modelled: the accept loops of the bridges and of the session's listeners; JSON, sockets,
-- processes, logging, deadlines; the command line; connections on a reverse listener that has lost its
-- mapping. The manager's critical sections and the daemon's requests are steps that do not overlap, the
-- closeAll of a session is one step, and the two directions of a shell or of a pipe are modelled one
-- by one; for the output of a shell, the end of its input is a number of writes.
pub mod Common
pub mod Stream
pub mod Wire
pub mod Strconv
pub mod Strings
pub mod Host
pub mod Service
pub mod Reverse
pub mod Session
pub mod Daemon
pub mod Client
pub mod Hdc
pub mod Examples
pub mod Listening
