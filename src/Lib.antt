-- ===== src/Lib.antt =====
-- The purity server: packets over TCP, a login by SRP, and a stage of work after it.
--
-- The parts, from the bytes up, with the file or directory that models each:
-- - Common: Booleans, lists by native numbers, outcomes. Bytes: byte order of integers in memory.
-- - Exception: the exceptions of the code. An outcome is a value (ok), a C++ exception (throw), or
--   undefined behaviour, such as an access out of bounds (fault).
-- - ByteBuffer: src/common/packet/ByteBuffer.hpp. Its methods keep their names; `M` passes the buffer.
-- - MessageBuffer: src/common/packet/MessageBuffer.hpp, the buffer that a socket reads into.
-- - Packet: src/common/packet/Packet.hpp, AuthPacket.hpp and WorkPacket.hpp, the two wire formats. Dump has
--   `log_raw_payload`.
-- - Utils: HexUtils.hpp, UTF8Utils.cpp, NetUtils.hpp, TimeUtils.hpp and GeneratorUtils.cpp
--   under src/common/utils.
-- - OpenSsl: what the code calls of OpenSSL, as functions with laws; an argument wherever it is used.
-- - Srp6: src/common/srp6/SRP6.cpp. Random bytes are arguments.
-- - AccountCache: src/server/AccountCache/AccountCache.hpp. The clock is an argument.
-- - Session: src/server/ClientSession/ClientSession.cpp, one connection. An asynchronous operation is
--   a field that says what is outstanding, and its handler is a function of its own.
--   Session.Threads has the writing as steps of two threads, one use of a member at a time.
-- - Server: src/server/Server.cpp, the set of sessions, the acceptor and the stop. A pointer to a
--   session is a number. Server.Threads has the stop in two parts, with an accept between.
-- - System: all sessions with the server and the cache that they share. Its steps are the handlers
--   that the executor runs; Stored and Sound have the invariant, Cached has
--   what the cache holds, and Answered a ping and its pong.
-- - Main: src/main_server.cpp in ServerMain and src/main_client.cpp in ClientMain.
-- - PreparedStatement: src/common/database/PreparedStatement.hpp.
-- - Logger: src/common/Logger.hpp, the text of a log line; Formatter has the time stamp and the levels,
--   Decimal the numbers, and Json and Entry read a line back.
-- - World: what the handlers of one session see besides it: the cache, and a query of the database as
--   an argument.
-- - AuthStage and WorkStage: src/server/SessionMode, the opcodes, handlers, and readers.
-- - Connection: the handler of `async_read_some`, which fills the read buffer and calls the reader of
--   the session's mode. Defined has the bounds of what is parsed and read, Kept and Leaves what
--   the handlers leave alone.
-- - Database: src/common/database/Database.hpp, the pool of connections, and QueryResults.hpp in
--   Database.Rows. libpqxx is an argument. Database.Pool has the steps of several threads, and
--   Database.Accounts the query that the login makes.
-- - Client: src/Client/Client.cpp, with its asynchronous operations as those of Session. Handlers and
--   Receive have what it does with what it gets. Sent, Proving, Login, Wire, Named, Credentials,
--   Queue, Writing, Draining, Framing and Reconnect are named for what they are about.
-- - Examples: the theorems at concrete values.
--
-- Bytes arrive in Connection, wait in the MessageBuffer, are cut into packets by the reader of the
-- stage, and go to a handler, which posts its answer to the session; Session queues it and writes it.
-- A login asks the cache, then Database. At the other end Client reads a header and a payload at a time.
--
-- A byte is a number; a string is the list of its bytes; a float is its bit pattern. Sizes are
-- numbers, and sums and differences of `size_t` are taken modulo 2 ^ 64 where the code takes them. The
-- loops of Utils.Utf8 run on fuel: one round for each byte is enough, and the theorems about them are
-- about the functions that give that fuel.
--
-- Not modelled: what spdlog does with a line, allocation, two uses of one member at the same moment (the
-- steps of threads are in sequence), several threads in one reader or in the client, and the coroutine's
-- suspension (`handle_logon_challenge` never waits, and runs where it is spawned). The copy of spdlog under
-- deps is another project, and tests is no part of the program.
pub mod Common
pub mod Bytes
pub mod Exception
pub mod ByteBuffer
pub mod MessageBuffer
pub mod Packet
pub mod Utils
pub mod OpenSsl
pub mod Srp6
pub mod AccountCache
pub mod Session
pub mod Server
pub mod PreparedStatement
pub mod Logger
pub mod World
pub mod AuthStage
pub mod WorkStage
pub mod Connection
pub mod Database
pub mod Client
pub mod System
pub mod Main
pub mod Examples
