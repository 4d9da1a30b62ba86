-- ===== src/Lib.antt =====
-- ptf is a performance test framework: a manager takes requests over HTTP, loads scripts of steps, and
-- orders worker threads to start so many transactions a second, each of which goes through the steps of
-- its script. This library models the core of it and proves what the core does.
--
-- The parts, and how they meet:
-- - Ring (src/ringbuff.h, `TRingbuffer`): the queue between threads. `Ring` is its fields, `enqueue`,
--   `dequeue`, `count` (`size`), `create` and `drain` its functions when nobody interferes; the abstract
--   view is the bounded queue of Queue. Ring/Rep says what it means that a ring holds a queue. Ring/Spsc
--   has one producer thread and one consumer thread, a shared access at a time, as step relations, and
--   Ring/Producers any number of producer threads. RingTest is src/test/test_ringbuffer.C, its threads one after
--   the other.
-- - Event (src/mptevent.h, src/cmdevent.h): types of events, and the commands to a worker. Event/Objects has the
--   events of the protocols as objects that are made and deleted (src/tcpevent.C, src/httpevent.C).
-- - Pool (src/mptthreadpool.h, src/mptthreadpool.C): Pool/Setup has `init`; Pool/Notify has `order` and
--   `threadEventProcess`, which hand a command to a worker through its ring and its pipe; Pool/Task has
--   `startTask`, `stopTask`, `runTask` and the timer, which start transactions, Pool/Task/Overflow the sums
--   of a task as an `int` holds them, and Pool/Task/Running the task with the `onEvent` calls that it waits for. Pool/Lifetime has the constructors and destructors.
-- - Transaction (src/transaction.h, src/transaction.C, `enter` and `exit` of src/script.C): `onEvent`
--   takes events from the transaction's ring and goes through the steps. It is written over an interface
--   for the queue, which the ring and the plain queue fill. Transaction/Lifetime makes and deletes it.
-- - Step (src/step.h, src/step.C): what a run of a step records, and how its text is decoded.
-- - Http (src/httpparser.h, src/httpparser.C, src/protocol.h, src/protocol.C): Http/Parser takes a
--   request apart; Http/Frame finds the end of a response.
-- - Socket (src/socketpool.h, src/socketpool.C): the callbacks of a connection, which find responses in
--   what comes in and push events to its transaction, and the pool of connections. Socket/Opening says how
--   connections and the pool are made and released.
-- - Timeout (src/timeoutqueue.h, src/timeoutqueue.C): the list of nodes that say when a transaction is
--   late, in a memory of nodes, what `enTqueue` and `deTqueue` do to it (Timeout/Chain, Timeout/Removed), and
--   the passes over it.
-- - Config (src/ptfconfig.h, src/ptfconfig.C): how the configuration is read, over a parameter for
--   libconfig.
-- - Script (src/script.h, src/script.C, `~TStep` of src/step.C): how `init` chains the steps of a script, what
--   `m_send_st2redis` adds up over them, and how they are deleted. Script/Property has `initProperty`, which
--   makes a step of a node and finds the address of the script; Script/Exchange takes a script of two steps
--   through the transaction, and Script/Dialogue a script of any number of exchanges. Script/Counters has
--   `enter` and `exit` as any number of threads call them at once, and Script/Lifetime the constructor, the
--   destructor and the setters.
-- - Steps: the kinds of step, as handlers that Step runs. Steps/Tcp (src/tcpstep.h, src/tcpstep.C), Steps/Web
--   (src/httpstep.h, src/httpstep.C, src/httpevent.h, src/httpevent.C) and Steps/Db (src/dbstep.h,
--   src/dbstep.C, src/stdoutstep.C) have their `init`, `send` and `recv`; the base part of `init`
--   (src/step.C) is in Steps itself. Steps/Tcp/Dialogue fills Script/Dialogue with the TCP steps.
-- - Manager (src/manager.h, src/manager.C, src/main.C, src/model/testcase.h): Manager/Startup has `main`;
--   Manager/World has what a request finds and changes, and Manager/Request `processHttpReq`, which reads a
--   test case, loads its script through Script/Property, gives the workers connections (Manager/Connect) and
--   orders them to start (Manager/Orders, through Pool/Notify).
-- - Redis (src/redis.h) has the client, and what src/script.C sends with it; DbPool (src/connpool.C) the
--   pool of database connections, from its constructor to its destructor.
-- - Text: how C strings are compared and numbers are read and printed. Xml: what libxml gives, a parameter.
-- - Evbuffer: libevent's buffer, which Http/Frame and Socket use, as an interface with laws; Evbuffer/Lists fills
--   it with plain lists.
-- - Prelude: the names that all share, lists and integers over the native numbers.
--
-- Numbers and memory: `unsigned int` is kept modulo 2^32 and `uint64_t` modulo 2^64; an `int` is an
-- integer of any size, but for what `atoi` reads and the counts that go to redis, which have 32 bits. NULL is `none`, or 0 where addresses are numbers. A variable that the source
-- leaves unassigned is an argument (`junk`). Threads in Ring/Spsc, Ring/Producers and Script/Counters see
-- sequentially consistent memory.
--
-- Fuel: `drain` gets one round for each item and one more; `timer_loop` gets as many rounds as the task
-- has transactions; `header_loop` gets a round for each byte of the text and one more. `on_event` goes
-- through a list of rounds, each with the events that others push before its poll. `scan` gets a round
-- for each node and one more, `report_loop` one for each step and one more.
--
-- The socket pool is filled with twenty sockets as in `createSocketPool`. `open_all` gets a round for each
-- call of `open`, `destroy` a round for each step, and `digits` a round for each unit of the number. The
-- destructor of a ring gets as many rounds as the ring has slots, 256 or 512.
--
-- Parameters: libevent's buffers, HTTP client and server; libxml, libconfig, jsoncpp, soci, hiredis, getopt, the
-- file system and the operating system. Where the code relies on what they document, laws say it.
--
-- Not modelled: several consumers of a ring, or several producers beside a consumer; the opening and closing of
-- sockets and the threads of the event loops, which are system calls; texts that are only printed;
-- `httpd_ptf_cb`, which is registered nowhere; the C programs in src/test. src/jsoncpp.cpp, src/json and
-- src/hashtable are copies of other projects.
pub mod Prelude
pub mod Queue
pub mod Ring
pub mod RingTest
pub mod Event
pub mod Pool
pub mod Evbuffer
pub mod Http
pub mod Text
pub mod Transaction
pub mod Step
pub mod Socket
pub mod Timeout
pub mod Config
pub mod Script
pub mod Xml
pub mod Manager
pub mod Redis
pub mod DbPool
pub mod Steps
