-- ===== src/Lib.antt =====
-- LightningCast-Endpoint: a program that takes music from a phone and lets a player play it. It has four
-- threads, and main:
--
--   * ServicePublisher publishes the service _lightningcast._tcp by mDNS.
--   * LightningCastServer listens on port 7700. A phone sends it an open message; it calls
--     LightningCastClient::Open and answers whether that worked.
--   * LightningCastClient connects to the phone on that port, reads its messages, sends heartbeats, and
--     ends the session if the phone falls silent. Play, pause and stop become calls of SnapcastComm.
--   * SnapcastComm talks to the player process on a local socket: it sends start and stop, and wakes the
--     calling thread when the answer comes.
--   * main turns keys into commands for the phone and at the end tells the threads to exit.
--
-- All messages are frames: eight bytes of header, with a key and a size, then a JSON text.
--
-- Which file models what:
--
--   * Base: names of the libraries, numbers, lists, texts, and Run, a state monad whose result is a
--     value, an exception that ends the process, undefined behaviour, or a wait without end. Int has the
--     range of int, Rules how a property goes through a do block.
--   * Wire: LightningCastCommon.h, and the loops over ::write and ::read, which processSend and doRead
--     of all three classes share word for word. Send and Receive hold the loops, Stream and RoundTrip
--     the proofs. What ::write and ::read return is a list of results, in order. Shared has the threads
--     that send on one socket under server_mutex, each ::write one step; Ordered, Whole and Alone are
--     about them.
--   * Util: Util.cpp and Util.h; Time has diff_in_us, Clock getTimeNowStr with its proofs in Decimals
--     and Printed, EventFd the class EventFD as a counter and make_socket_non_blocking. FdSet has the
--     fd_set of select, with room for FD_SETSIZE descriptors.
--   * Json: what the program uses of the JSON library, as a record of operations.
--   * Client: LightningCastClient.h and LightningCastClient.cpp. State has the members and the interface
--     to SnapcastComm (SnapPort); Handlers, Send, Dispatch and Session have the methods under their
--     names in snake case, Calls has Open, Close and Exit up to their return; Sharing, Footprint,
--     Metadata, Version, Lifecycle, Silence, Complete, Replies, Unconvertible, Player and Reopening have
--     proofs. Contract has what the client relies on in the player's component, an abstract player.
--     MusicInfo has the three classes that nothing uses. Channel has the command channel: the threads of
--     the class, of the server and of main, each critical section of handle, do_open, Open, Close and
--     Exit one step; Safety, Progress, Shutdown and Heard are about its runs. Notify adds which threads
--     sleep in cond_sync; Wakeups and Missed are about that. Requests has the calls of SnapcastComm that
--     doPlay, doPause and doStop make, in order.
--   * Snapcast: SnapcastComm.h and SnapcastComm.cpp, twice. Parse and Calls follow each method up to its
--     return, with the bytes that it sends and reads, for a player that is silent between the calls; Link, with Untouched, fills the contract; Answers and
--     Stop have the calls of a client whose player answers. Interleaving has the two
--     threads that share the command channel, each critical section one step; Safety, Close, Exit and
--     Faults are about all its runs. Notify adds which threads sleep in cond, with one calling thread; Unheard is
--     about that.
--   * Server: LightningCastServer in LightningCastServer.h and LightningCastServer.cpp. Handlers has the
--     methods for one connection, Loop the select loop of handle; Handshake puts the client's Open
--     behind the server and Turn both into the loop, Refusal has what closes a connection, Descriptors,
--     Reported, Exit and Capacity are about the loop.
--   * Publisher: ServicePublisher in the same two files. Register has mdns_tinysvcmdns_register;
--     Lifecycle has handle, mdns_tinysvcmdns_unregister and the end of main as steps of two threads.
--   * Device: LightningCastDeviceSample.cpp; Keys has the loop over the keys, Meaning a table
--     of what they stand for, with Typing, Volume and Overflow about it, Signals init_sig, Place the statements of main.
--   * Program: main of LightningCastDeviceSample.cpp with all its threads: the states of Client/Channel,
--     Snapcast/Interleaving and Publisher/Lifecycle and the server's loop side by side, where
--     SnapcastComm is called from three threads, each in the order of its handler. Sound has the
--     invariant, with Stays, Moves and Standing; Hangs, Merged, Held, Unanswered and Late, with Stranded, the ways in
--     which main never returns; Ending the end when no command is lost, with Quiet and Quit from key q on;
--     Decided puts both together.
--   * Examples: the theorems applied at concrete inputs, and tests.
--
-- Bounds. A uint32_t is a natural number below 2^32; the size of a frame is taken modulo 2^32 where it
-- is cast. An int is an integer; main's arithmetic on ints is undefined where it leaves the range, and so is
-- FD_SET of a descriptor that has no place in an fd_set. The double in
-- diff_in_us gives the whole microseconds exactly for differences below 2^52 nanoseconds, 52 days, and
-- the theorems about it are limited to these. Loops run over what their environment does: the results of
-- ::read, ::write, select, accept and connect, and the keys, are lists, and a loop that has used up its
-- list has not returned (stuck). A theorem that a call returns therefore names what the environment must
-- do.
--
-- What the phone, the player and the peers of the server do in Client/Channel, Snapcast/Interleaving and Program is a
-- step that may come and need not: connect returns, bytes arrive, the player's call in a handler returns. Program says
-- of the server's thread only that it is at a message, not what it reads.
--
-- In Program a call that waits in cond_sync may go on when its predicate holds; only
-- Client/Channel/Notify and Snapcast/Interleaving/Notify follow notify_one.
--
-- Not modelled: the bodies of the JSON and mDNS libraries, which are copies of other projects; and
-- printing. The local time that getTimeNowStr prints is an argument. Memory is taken as sufficient.
pub mod Base
pub mod Wire
pub mod Util
pub mod Json
pub mod Client
pub mod Snapcast
pub mod Server
pub mod Device
pub mod Publisher
pub mod Program
pub mod Examples
