-- ===== src/Lib.antt =====
-- A model of the LightAgent gateway server and the theorems that make its parts correct.
--
-- The server accepts connections in its base loop (Server.cpp) and hands each to the event loop of a
-- thread (EventLoopThreadPool.cpp, EventLoop.cpp). That loop reads HTTP requests from non-blocking
-- sockets (HttpData.cpp, Util.cpp), answers those below /api/ in the gateway (LightAgentGateway.cpp)
-- and the others from files, closes idle connections by a timer queue (Timer.cpp), and logs through
-- double buffers (base/LogStream.cpp, base/AsyncLogging.cpp). ThreadPool.cpp is a task queue beside it.
--
-- Files and the code they model, with the source's names in snake_case:
--   Common         byte strings as lists of numbers, decimal numerals (std::to_string, std::stoi).
--   Gateway        LightAgentGateway.h/.cpp. Json and Replies read the replies back, Router states
--                  which request gets which reply and what is counted.
--   Io             Util.cpp: the loops round read and write. What the system calls return is a script
--                  of events; the loops are recursions on it.
--   Timer          Timer.h/.cpp. The clock is an argument, a node's address a number.
--   Http           HttpData.h/.cpp. RequestLine is parseURI, Headers is parseHeaders, Lookup reads the
--                  header map, Mime and Favicon are the tables, World holds what the handlers change
--                  beside the connection and the handlers that only write, Analysis builds the
--                  replies, Serving is handleRead, and its children follow whole requests through
--                  it; Connection is handleConn, handleClose and newEvent with what they call of
--                  Channel.h and Epoll.cpp, for one descriptor, with an event in Cycle, Output and
--                  Refusals.
--   Channel        Channel.h/.cpp: the handlers of a channel, and the event that calls them. In Users,
--                  the channels of connections and of the server are such channels.
--   Epoll          Epoll.h/.cpp over all the descriptors of a loop: poll, the rounds, handleExpired; in
--                  Idle and Delivery, one connection over rounds with its timers.
--   ThreadPool     ThreadPool.h/.cpp: the ring of tasks, with callers, and workers that take tasks and call
--                  them later, in any order.
--   Loop           EventLoop.h/.cpp: one loop's thread and the others, interleaved, and the eventfd that
--                  wakes it; in Watching, the channel of the eventfd.
--   Server         Server.h/.cpp, EventLoopThreadPool.h/.cpp; in Listening, socket_bind_listen of Util.cpp.
--   Main           Main.cpp: the options, and the start of the server.
--   Startup        EventLoopThread.cpp with base/Thread.cpp and base/CountDownLatch.cpp: startLoop.
--   Teardown       EventLoopThread.cpp: the destructor, against the end of the loop's thread.
--   Thread         base/Thread.h/.cpp as the owner of a thread uses it.
--   Logging        base/LogStream.h/.cpp; in Async, base/AsyncLogging.h/.cpp, whose thread
--                  and the threads that log are interleaved in Async.Running; in File, the appending
--                  of base/FileUtil.cpp and base/LogFile.cpp; in Logger, base/Logging.cpp.
--
-- Interaction: Serving calls the parsers and then Analysis, which asks Gateway for the paths below
-- api/ and sends its reply through the connection's output buffer; Io moves that buffer to the
-- socket. World carries the socket, the timers and the gateway's counters from call to call.
--
-- Results that the language leaves undefined (a read outside a buffer) are values of their own, as are
-- loops that have run out of fuel. Fuel is used in three places: handle_read, where each recursive
-- call takes at least one byte of input, so that the bytes not yet taken are enough; to_string and
-- low_digits, where each round divides by ten and the number itself is enough. Counters keep their
-- 64-bit wrap-around. Lengths are natural numbers: buffers are taken to be shorter than 2 ^ 31, but for
-- the cast to int in FixedBuffer::append, which is written out.
--
-- In Epoll a one-shot mask is disarmed when the kernel reports it. In Loop `epoll_wait` returns when the
-- eventfd or another descriptor has something to report; the eventfd is modelled as the kernel documents
-- it: a counter up to 2 ^ 64 - 2, of which every write is an edge, and which is reported once per edge
-- while it is positive. The system calls of Server return what a script says.
--
-- Not modelled: how long the logging thread waits for its condition, and the joining of it; the opening,
-- flushing and closing of log files, which are calls of the C library; the functions that are one system
-- call each (in Util.cpp, base/MutexLock.h and base/Condition.h). What snprintf prints for a
-- floating-point number, and what getopt and atoi return, are arguments.
pub mod Common
pub mod Gateway
pub mod Io
pub mod Timer
pub mod Http
pub mod ThreadPool
pub mod Logging
pub mod Loop
pub mod Server
pub mod Startup
pub mod Epoll
pub mod Main
pub mod Teardown
pub mod Thread
pub mod Channel
