-- ===== src/Lib.antt =====
-- ChatFlow: a chat over WebSockets, spread over several servers by RabbitMQ, and the client that
-- loads it.
--
-- A browser or the load client opens /chat/{roomId}. Its handler (internal/server/chatRoomHandler.go)
-- reads a JOIN, puts the user into the room, and starts a writer goroutine. Every message is answered
-- by a `Response`, which goes into the room's channel `Broadcast`; the room's goroutine
-- (internal/server/server.go) gives it to the channel `Send` of each user of the room, from where the
-- writers send it. The same message goes to the broker (internal/rabbitmq/server.go), and the consumers
-- of the other servers put it into their rooms' channels. A user who leaves is removed by an event in
-- the same channel, so that the removal comes after the messages.
--
-- Files and code:
--   Models            pkg/models/message.go, response.go, queueMessage.go: the records; Validate and
--                     Respond have `Validate` and `NewResponse`, Exact and Verdict what these decide,
--                     Assignment the rules of assignments/assignment1.md; Metric has metric.go, and
--                     Csv pkg/utils/csvWriter.go
--   Server            internal/server/server.go: the types. Clients and connections are addresses in
--                     stores, rooms are entries of a map
--   Server/UserRooms, Server/Rooms   the index by user; AddNewRoom, AddUserToRoom, RemoveUserFromRoom
--   Server/Broadcast  the rounds of a room's goroutine, the consumer callback, the sends into Broadcast
--   Server/Handler    chatRoomHandler.go: ChatRoomHandler as a state machine that stops where the code
--                     waits, broadcastAndPublish, handleClientWrites
--   Server/System     all goroutines together: one action is one step of one of them
--   Server/Invariant  the invariant of rooms and clients, and what only grows
--   Server/Leave, Loss, Members, Echo   the order of a leave, lost connections, memberships, the
--                     filter of a server's own messages
--   Server/Roster     an abstract view of the rooms, the goroutines and `UserRooms`: who is in which
--                     room, whose removal is under way, and what is listed; with its steps
--   Server/Metrics    internal/server/metricsHandler.go: what /metrics reads, and in which states
--   Rabbit            internal/rabbitmq/server.go: Publish, publishDirect, Consume and the routing;
--                     Lag has the lags that its consumers measure and `startMonitoring` logs,
--                     Setup what NewRabbitMQ asks of the AMQP client, Ledger the workers and the
--                     watcher of the connection; Routing fills the interface `Broker` of
--                     pkg/rabbitmq/server.go, which Server takes as a parameter
--   Client            Pool and Dial: client/ws/pool.go and the dialing of wsClient.go, Socket its
--                     goroutine `Read`; Writer, Reader, Stats and Overall: client/ws/client.go, the
--                     write loop, the goroutine that reads with its sends into `metricChan` and
--                     `statsChan`, `sendStats` and `GetOverAllStats`; Pipeline: client/pipeline.go, the ends of the
--                     connections and the report; FanOut: client/fanout.go, one user
--   Generate          pkg/generate/generate.go
--   Env               pkg/env/environment.go
--   Prelude           Go's maps, buffered channels, int64, strconv.Atoi and Itoa, sort.Slice, and the
--                     trimming of package strings
--   Examples          runs on concrete inputs
--
-- Maps are association lists; a loop over one visits the entries in the order of the list, which is
-- arbitrary. A buffered channel is a bounded queue with a flag for `close`; a send to a closed one is a
-- panic. What holds a mutex is one step, except that a room's goroutine can be interrupted between
-- a removal and `removeFromUserRooms`, where it holds none. Atomic counters wrap at 2 ^ 64. `Itoa` has
-- fuel for twenty digits, and a 64-bit number has at most nineteen; the loop of `NewRooms` is
-- taken for any number of rounds; all other loops are structural.
--
-- A signed 64-bit integer is its bit pattern, with the order, the sum and the quotient written out.
-- The write loop has five attempts for a message, counted down.
--
-- Arguments of the definitions: `time.Parse`, the clock, UUIDs and random draws, the answers of the
-- network, of the AMQP client and of the circuit breaker, the body that `json.Unmarshal` reads, the
-- files that `godotenv.Load` finds, what encoding/csv makes of a record and keeps in its buffer, and
-- float64 where throughputs are summed and sorted. A channel that a send of the reader of the load
-- client waits for is taken as it is once the send is possible, or as it stays for good. The
-- quotients by 20 and by 100 stand for the products with the floating point numbers 0.05, 0.95 and
-- 0.99.
--
-- Not modelled: HTTP routes, pages, the encoding of JSON, errors of the disk, logging and the
-- queue depths that `startMonitoring` polls, `roomChan` and the goroutine that empties `metricChan` in
-- the load client, and the programs, which only start these parts.
pub mod Prelude
pub mod Models
pub mod Server
pub mod Client
pub mod Rabbit
pub mod Generate
pub mod Env
pub mod Examples
