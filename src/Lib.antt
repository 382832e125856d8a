-- ===== src/Lib.antt =====
-- A model of the telemetry server: a process receives telemetry frames over TCP and pushes them to a
-- ring in shared memory; a second process, the reader, pops them and appends them to segment files.
--
-- Protocol models the wire format (Protocol/src/TelemetryCodec.cpp): `encode` and `decode` of a
-- 32-byte frame, over the byte-level reads and writes of Protocol.Words.
--
-- Ipc models the ring (Ipc/src/SharedRingBuffer.cpp). Ipc.Ring has one function per method, which
-- takes the object and returns the result and the object after the call; the counters are 64-bit words
-- that wrap around. Ipc.Queue is what the ring promises, a bounded queue of frames. Ipc.Spsc is a
-- relation of steps for one producer and one consumer that run at the same time, in which each frame
-- is copied in a step of its own. Ipc.EventFd is the retry loops of Ipc/src/EventFd.cpp.
--
-- Storage models the file store (Storage/src/FileStore.cpp). Storage.Disk is the interface of the
-- system calls that it makes, with the documented behaviour of these calls as laws: calls may be
-- interrupted, may write less than asked, and may fail. Storage.FileStore has one function per method
-- on a state of the store and the disk.
--
-- Server models the receiving process (Server/src/Server.cpp). Server.Net is the interface of the
-- system calls that it makes, with the documented behaviour of Linux as laws. Server.Buffer is the input
-- buffer of a client, and Server.Receive is what `readClient` does with the bytes of one `recv`.
-- Server.Clients is the table `m_clients`, and Server.Connections has `acceptClients`, `readClient`,
-- `removeClient` and `removeAllClients`, on a record of the server, of the variables of `run` that its
-- methods are handed and of the world of the interface. Server.Signals is `handleSignalFd`,
-- Server.Ingress is `updateIngressInterest`, Server.Events has `handleEvent`, `handleSignalEvent`,
-- `beginDraining` and the loop of `run`, and Server.Startup is `run` as a whole, on a second interface of
-- the calls that set up its socket and its epoll instance. The reader is a process of its own: it is seen to
-- take frames while the server waits in `epoll_wait`, which says how many; the loop
-- returns what the reader has taken beside its result. Server.Script is a network
-- that follows a script, for the tests. The laws of the interface note each connection and each piece of
-- bytes that the kernel hands over in a log, and Server.History says which frames such a log brings.
--
-- Reader models `Reader::run` (Reader/src/Reader.cpp): a round pops the ring in batches, decodes
-- each frame, stages it and stores the staged frames, and Reader.Run has the rounds from the opening of
-- the store to the sync at the end. The ring and the store are those of Ipc and Storage; a rename
-- replaces a segment of the same name, one that was not flushed before it counts as lost, and
-- Storage.FileStore.Names shows that no name is made twice. The producer is
-- an interface, Peer, and it pushes frames or closes the ring while the reader notifies it or waits for
-- it; within a round the ring is left alone.
--
-- Main models src/main.cpp: the command line, the signals, the ring and the eventfds, `fork`, the reader
-- in the child, and the server and the end of the reader in the parent. Main.Calls has the documented
-- behaviour of the system calls. The model runs one of the two processes, as `fork` says; the calls of
-- the server, of main.cpp and of the reader each have a part of the machine of their own, and how often
-- an eventfd was written counts the writes of main.cpp alone.
--
-- Load models the load generator (bench/telemetry_load.cpp), a client of the server: its options, the
-- batches of frames that it encodes into its buffer, and the sends, on an interface of the socket calls.
--
-- Config models the command line (Config/): `parseUnsigned`, `validate` and `parseArguments`, without
-- the messages that they print.
--
-- Base holds the shared notation, Boolean tests, lists measured by native numbers, machine words, text
-- and actions on a state.
--
-- Loops that retry a system call run on fuel. The laws bound the calls that are still interrupted, and
-- the theorems ask for fuel above that bound (and, for a batch, its length, since each round writes
-- at least one byte): then the loops return.
-- The loops of the server have fuel for the bytes, connections, signals and interrupted calls that are
-- still to come, which its laws bound; the calls of `epoll_wait` are bounded by rounds of their own, since
-- `run` waits for as long as it is not told to stop.
-- A drain has as many rounds as there are frames in the ring, at most. The reader has a round more than
-- the times that the producer wakes it before it closes the ring, which the laws of the producer bound.
--
-- Not modelled: the profiler of bench/, which runs perf and reads its reports, log output, and the
-- effects of weak memory that release and acquire rule out. Sizes of files and batches are taken to stay
-- below 2 ^ 64, except where a subtraction is unguarded, which wraps around.
pub mod Base
pub mod Protocol
pub mod Ipc
pub mod Storage
pub mod Config
pub mod Server
pub mod Reader
pub mod Load
pub mod Main
