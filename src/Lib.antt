-- ===== src/Lib.antt =====
-- Dokevi-Network: a Windows library for TCP servers on I/O completion ports and for their
-- clients. All paths below are under vs2017_static_lib/DokeviNetwork.
--
-- The parts. A server socket (TCPSocket.h, TCPSocket.cpp) takes messages from an application,
-- packs each with its length into a packet of a fixed size class and hands it to WSASend; it
-- reassembles what WSARecv brings into frames and calls PacketHandler. The packets
-- (PacketInterface.h, PacketSelector.h) come from seven pools (AtomicStaticPool.h). The server
-- (DokeviServer.h, DokeviServer.cpp) posts the accepts and hands each completion to the socket
-- that it is about. The client (NetworkClient.h, NetworkClient.cpp) has its own sending and its
-- own reassembly. A stream of bytes joins the two.
--
-- - Prelude: shared names; Boolean tests, lists over the native numbers, faults and results, and
--   arrays with memcpy and memmove, in its children.
-- - Bytes: NetworkUtils.cpp, the 32-bit size in a byte array.
-- - Log: LogManager.h and LogManager.cpp, which lines reach the logger and when LOG_CRITICAL ends
--   the program.
-- - Framing: the wire format of both sides on its own: a stream as whole frames and an unfinished
--   rest, how it is cut, the streams that get stuck (Framing.Stuck), and the interface that a
--   reader of the format fills (Framing.Reassembly).
-- - Receive: RecvPacket of TCPSocket.cpp. `round_len` and `round_body` are the two steps of its
--   loop, `recv_loop` the loop, `recv_packet` the whole call.
-- - Packet: PacketInterface.h and PacketSelector.h. `choose` is the ladder of tests by size,
--   `alloc_packet` is AllocPacket, `free_packet` is FreePacket.
-- - Pool: AtomicStaticPool.h. `alloc` and `free` are Alloc and Free.
-- - Send: Send and OnWriteCallback of TCPSocket.cpp with Send of DokeviServer.cpp. Send.Chain has
--   the list of packets that a socket stands for, Send.Write to Send.Freed the steps on it,
--   Send.Burst one Send, Send.Delivery and Send.Bursts sequences of them, Send.Reissue a Send
--   between two completions and Send.Crossed two sockets with one pool.
-- - Client: SendPacket, GetProtocol and DeserializePacket of NetworkClient.cpp, its receive
--   thread in Client.Session, and Connect, Wait, Disconnect and the destructor in Client.Life.
-- - Link: SendPacket and RecvPacket joined by a stream that the network cuts as it likes. Reply:
--   the other direction, TCPSocket::Send and DeserializePacket.
-- - Progress: ProgressLock.h.
-- - Queue: AtomicStaticQueue.h; Queue.Fifo has the list that it stands for.
-- - Server: DokeviServer.cpp and ResetSocket of TCPSocket.cpp: ports, connections and the
--   dispatch of completions. Server.Sockets puts the receiving half of a socket behind every
--   connection, with Server.Isolation and Server.Delivery about each of them; Server.Listening is
--   about SetListenPort; Server.Workers has the handlers as the steps of any number of I/O
--   threads, with Server.Workers.Alone about who is in RecvPacket, Server.Workers.Order about the
--   order of the handlers' calls and Server.Workers.Count about the clients counted.
-- - Sync: SyncSection.h and SyncSection.cpp as the steps of any number of threads. Sync.Exclusion
--   and Sync.Leaving are about threads that only write, Sync.Sharing about threads that read and
--   write without nesting, Sync.Ownership about the owner that is recorded, Sync.Locker has
--   ReadLock, WriteLock and EndLock.
-- - Threads: ThreadManager.h and ThreadManager.cpp.
-- - Scalable: ScalablePool.h and ScalablePool.cpp.
-- - Stacks: StackTracer.h and StackTracer.cpp, the calls that each thread records;
--   Stacks.FileName has MakeFileNameUsingAddress.
-- - LockStacks: LockStackTracer.h and LockStackTracer.cpp, the locks that each thread records.
-- - Crash: DokeviException.cpp, the minidump and the report on an unhandled exception, over
--   Stacks and LockStacks.
-- - Startup: InterfaceFunction.cpp, ISingleton.h, and what starts a server and its sockets. It
--   joins the models of the managers. Startup.Instance has GetInstance as the steps of any number
--   of threads.
-- - Address: SocketAddress.h.
-- - Random: RandGenerator.h.
-- - Config: GetStr and GetInt of ConfigManager.cpp with their cache; Config.Stale is about
--   another file behind the same cache.
-- - Tests: the results at concrete inputs.
--
-- Conventions. The build is a release build, in which _ASSERT does nothing. RECORD_STACK, and the
-- logging that is not LOG_CRITICAL, do not change what a function does and are left out of it. A
-- fault is a value: an access outside an array (overrun), a null pointer that is followed
-- (null_deref), the division by zero of LOG_CRITICAL (crash, as also a text that is too long for
-- sprintf_s), a loop that does not end (spins), an exception that nothing catches (throws). The
-- target is little-endian with a signed char, as Windows is. An unsigned int wraps at 2 ^ 32 and
-- an unsigned __int64 at 2 ^ 64, written out. A pointer to an element is the array it is in and
-- its index there; the pool for packets of N bytes has array N. What the operating system answers
-- (the outcome of send, the completions of WSARecv, tick counts) is an argument, and what it is
-- asked to do is an event in the result. A function that runs under one lock from beginning to
-- end is one step.
--
-- Fuel. The loop of RecvPacket runs on 2 * recv_size + 3 rounds, two for each frame, and a frame
-- has at least one byte; the loop of DeserializePacket on one round more than it has bytes. Both
-- are enough for every stream that is cut into frames; `spins` stands for a loop that does not
-- end.
--
-- Not modelled: the vendored spdlog; what stands in a minidump, which the operating system
-- writes; several threads inside of the functions that take a lock (the reader-writer section and
-- the handlers of the I/O threads are modelled for any number of threads, and each function under
-- a lock is one step); GetFloat, which computes with floating-point numbers; the destructor of a
-- singleton, since none is ever deleted.
pub mod Prelude
pub mod Bytes
pub mod Log
pub mod Pool
pub mod Framing
pub mod Receive
pub mod Packet
pub mod Send
pub mod Client
pub mod Link
pub mod Reply
pub mod Progress
pub mod Queue
pub mod Config
pub mod Server
pub mod Sync
pub mod Threads
pub mod Scalable
pub mod Address
pub mod Random
pub mod Stacks
pub mod LockStacks
pub mod Crash
pub mod Startup
pub mod Tests
