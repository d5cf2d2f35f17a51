-- ===== src/Lib.antt =====
-- silvernode-go: a framework of network nodes in Go.
--
-- A node (silvernode.go) reads its configuration (ctx), joins a registry (cluster) and listens with
-- workers (nets). A worker admits another node in a handshake, which asks the node's onCheckNode, and
-- hands the messages of a connection to peers, which call the methods of registered peers, on the
-- executors of process, and answer. The messages are written with utils/buffutil, the identifiers
-- come from utils/snowflake, and utils/stlutil has the containers.
--
--   Common      natural numbers, lists, Boolean tests, equality; `Run` is the outcome of Go code:
--               a result, a panic, or (for a loop on fuel) out of fuel; `Attempt` is a result or an
--               error that Go returns beside it
--   Strings     strings.Split, HasPrefix and numbers in decimals
--   Stl         Map, HashTable, HashSet, Dictionary and ArrayList (list.go) of utils/stlutil. A Go
--               map is an association list; the list's order stands for the order in which one
--               run ranges over the map. Each method is the function of the same name in snake case
--               that takes the object last and returns the new one.
--   Buffutil    Buffer (buffer.go) and Parser (parser.go): a method with its early return on an
--               earlier error. Object has the wire format written out independently of the code,
--               and the proofs: what is written, what is read back, termination.
--   Nets        TcpBuffer and the loop of h_tcpSocket (Tcp): `round` is one round of the loop,
--               `drain` the loop, `on_read` one task of the worker, with the bytes that conn.Read
--               delivers and the handler (onMsg, or dealHandShake) as arguments. Connect is the
--               manager of connect.go; Session has onConn, onMsg, onClose and onError, which change
--               the manager and record their calls of the listener; Session/Steps makes them the
--               steps of a relation. Origin is the origin information of nets.go. Address is the
--               choice of a transport and the address that Connect of tcp.go and kcp.go dials.
--               Handshake has doHandShake and dealHandShake, the tasks of a KCP packet and of a
--               WebSocket, and Connect.
--   Peers       Exchange: the header of the messages between peers, written and read with buffutil.
--               Calls: the table of pending calls of peer.go, the notifications of Done and Chan
--               recorded; Calls/Steps is the table under any sequence of calls, answers and checks.
--               Request: request, Call, SendEvent, and Invoke and Do up to the wait on the channel.
--               Serve: what dealExchange does with a request, as a list of deeds; a method may
--               panic or never return. Remote: a request and its answer between two nodes, with the
--               values that reach the replies; which messages the transport brings is an argument.
--               Registry: the peers of peers.go by their nicks
--   Node        onCheckNode of silvernode.go, which the handshake asks for the name of a node;
--               Network: the calls that connect, send, close and scan; Startup: Setup and Serve
--   Ctx         NodeInfo (node_info.go) with NodeSignature, AppConf (app_conf.go)
--   Cluster     the record of the operations of a registry, and Etcd, Consul and Nacos that fill it
--   Process     Service (service.go and scheduler.go), Executor, Processor, Table (process.go, whose
--               Kill says whether it returns) and Channel (process/channel)
--   Snowflake   Generate, with the readings of the clock as arguments
--   Pools, Stringutil, Netutil, Log, Plugins
--               utils/pools, utils/stringutil, ParseUrlInfo of utils/netutil, the levels and texts of
--               log, the names and the wiring of plugins
--
-- Bytes are natural numbers below 256, strings are lists of bytes, and machine integers are written
-- modulo 2 ^ w. Floats are their 32-bit patterns.
--
-- Fuel: ReadObject recurses into containers, so `read_object` has fuel; the depth of the value is
-- enough to read it back, and one more than the bytes that are left is enough on every input, where
-- the functions that users registered end and only consume. The loop of h_tcpSocket has fuel for its
-- rounds; one more than the messages is enough for complete frames. On an incomplete frame the loop
-- of the source may not end.
--
-- Generate waits on the readings that are given: a reading later than the last time is enough.
--
-- The timer loop of a service has fuel for its rounds; its number of repetitions and one more is
-- enough. Writing a number in decimals has one more than the number as fuel, and takes fewer steps.
--
-- Parameters: the clients of etcd, consul and nacos (a state and what each call answers and changes),
-- what a codec makes of arguments and replies, the methods of peers and the hooks of the pipeline,
-- url.Parse, the JSON of the handshake and the answers of its socket, the registered types of buffutil
-- (their sign, serializer and deserializer), MD5, the local addresses, the free ports, the exchanges
-- that sort.Sort makes, the messages that the transport brings, and the handler of messages. The check
-- of a signature has a registry: on a node without a cluster onCheckNode panics where an origin parses.
--
-- Not modelled: locks (each method runs alone), goroutines but for the signals that reach a loop,
-- the accept loops of the workers, reflection (the scan of a type for its methods, FetchArgv and
-- FetchReplyv), peers/proc, which writes Go text, http and utils/timeutil, which wrap the standard
-- library, the watches of the registries, the wait of Invoke on its channel and of Sync on the signal, files, flags and writers of logs, and the packages that
-- only call a library.
pub mod Common
pub mod Strings
pub mod Stl
pub mod Buffutil
pub mod Nets
pub mod Snowflake
pub mod Process
pub mod Netutil
pub mod Ctx
pub mod Cluster
pub mod Pools
pub mod Log
pub mod Stringutil
pub mod Plugins
pub mod Peers
pub mod Node
