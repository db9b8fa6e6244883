-- ===== src/Lib.antt =====
-- A verification library of the RPC framework: a length-prefixed binary protocol over a non-blocking
-- TCP layer, with services on the server, clients that match responses to requests, a registry of
-- nodes, consistent hashing and a circuit breaker.
--
-- How the parts interact: a client encodes a request to a packet and sends it on a connection; the
-- connection reads into a buffer; the server's message callback decodes packets from the buffer in a
-- loop, calls the method of the service, and sends the encoded response, which the client decodes and
-- matches to the request by its number.
--
-- Which file models which part:
--   Network/Buffer          src/network/buffer.cc. `bytes`, `reader` and `writer` are `buffer_` and the
--                           two indices. Contents has what each operation does to the readable bytes,
--                           Fifo the refinement to a queue, Reading `readFd`.
--   Network/Connection      src/network/tcp_connection.cc: states, sends, flushes, closing. Flow and
--                           Stream follow the written bytes, Lifecycle and Quiet the closing.
--   Network/Connector       src/network/connector.cc: connecting and retrying.
--   Network/LoopPool        src/network/event_loop_thread_pool.cc: the choice of a loop.
--   Network/EventLoop       src/network/event_loop.cc: timers, posted functors, a round and the loop.
--                           Rounds is the rule for its invariants; Due, Cancelling, Functors, Sleeping
--                           and Quitting are what follows from it.
--   Network/Channel         src/network/channel.cc, and `updateChannel` and `removeChannel` of the loop.
--                           Registration relates it to epoll, Dispatch to the connection's handlers.
--   Network/TcpClient       src/network/tcp_client.cc: the connector with the connection that it made.
--   Network/TcpServer       src/network/tcp_server.cc: the table of connections and its removals.
--   Codec                   src/codec/rpc_codec.cc: Crc the checksum, Words the byte order, Message the
--                           messages of proto/rpc_service.proto, Encode the encoders, Cursor and Decode
--                           the decoders. Roundtrip and Verdicts have what `decode` does with a packet,
--                           and with anything else.
--   Server                  src/server/rpc_service.cc and src/server/rpc_server.cc: methods, services and
--                           the loop of `onMessage`.
--   PipelineClient          src/client/inline_pipeline_client.cc: pending requests and timeouts.
--   InlineSyncClient        src/client/inline_sync_client.cc: one call at a time, which drives the loop.
--   AsyncClient             src/client/rpc_async_client.cc. The parent has the state and the two ways a
--                           call ends, Choice the load balancing, Calls the calls, Upkeep the heartbeat,
--                           Connecting the connections and the destructor. Tally, Accounting, Answering,
--                           Steps and Settling count the answers of each caller, Awaited and Late are
--                           about timers that outlive their calls, Affinity is about consistent
--                           hashing, Messages about the loop of `onMessage`, and Exchange and Arrival
--                           about a call through the server.
--   Registry                src/discovery/memory_registry.cc, entries in src/discovery/service_registry.h.
--   ConsistentHash          src/loadbalance/consistent_hash.cc.
--   CircuitBreaker          src/circuit_breaker/circuit_breaker.cc.
--   Interceptor             src/interceptor/interceptor.cc and two of the built-in ones.
--   Pool                    src/pool/connection_pool.cc: the choice of a client, and the pools.
--   Prelude                 shared names, Boolean tests, lists, slices, tables and exclusive or.
--   Examples                the theorems at concrete inputs.
--
-- Conventions: bytes and unsigned numbers are natural numbers, with the remainder by 2 ^ w where
-- the code can wrap; sums of sizes stay below 2 ^ 64 for every buffer that can be allocated. An
-- unordered map is an association list, of which only lookups are used or whose order is the map's
-- own. What a system call returns, an error included, the clock and the jitter are arguments. The
-- serialiser that protobuf generates is the record `Protobuf`, whose laws say that a request comes
-- back from its own serialisation, and a response whose error text is valid UTF-8; Examples has an
-- instance. A method handler is a function of the request and the response. A user's callback is
-- what it is given, and in the connection what it leaves of the input buffer and what it then does
-- on the connection.
--
-- Bounds and fuel: the loops of `onMessage` run on a count of rounds. A round that goes on takes at
-- least 22 bytes, the size of the smallest packet, so one round more than the readable bytes divided
-- by 22 is enough.
--
-- The event loop's trace is a list of events, each a use by a handler or another thread, or a round. A
-- thread of the asynchronous client that waits for its promise is an entry of a table, and its
-- running on is a step of its own, so that every order of the threads is a list of events. The
-- inline client's wait is a list of rounds with their times; that it returns is stated for every list
-- with a round at the deadline.
--
-- Not modelled: sockets, the acceptor and threads (system calls around the parts above), the
-- synchronous client, which forwards to the asynchronous one, the rate limiters (floating point and a
-- Redis service), the etcd registry (a service), and the code that protobuf generates. Calls under a
-- mutex follow one another, so memory orders and data races are out of reach; the breaker's unlocked
-- loads are arguments of its branches. Callbacks that throw are not modelled either.
pub mod Prelude
pub mod Network
pub mod Codec
pub mod Server
pub mod PipelineClient
pub mod InlineSyncClient
pub mod Registry
pub mod ConsistentHash
pub mod CircuitBreaker
pub mod Interceptor
pub mod Pool
pub mod AsyncClient
pub mod Examples
