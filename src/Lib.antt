-- ===== src/Lib.antt =====
-- A model of the distributed IoT gateway: an epoll network library (src/net), an MQTT 3.1.1 codec
-- (src/protocol), the gateway node that is built on them (src/gateway), its clients of Redis and of a
-- time series database (src/storage), its HTTP interface (src/api), the alerts, metrics and dashboard
-- of its platform (src/platform), and a simulator of devices (apps).
--
-- How the parts interact. A TcpConnection owns two Buffers and a Channel. Its loop tells the channel
-- which events are ready; handleRead fills the input buffer and calls the message callback, which is
-- GatewayServer::onMessage. That cuts the buffer into packets with MqttCodec::parse, whose callbacks
-- are the server's handlers. They change the DeviceManager, which keeps the devices of the node and
-- who subscribes to what, and they answer by TcpConnection::send, which goes to the socket or waits in
-- the output buffer until handleWrite. The ClusterManager keeps which other nodes are alive; a command
-- that a node takes from its Redis stream goes to the device's connection, or by the registry of
-- devices to another node. ApiServer turns a POST into such a command by enqueueCommand. The Acceptor
-- hands a socket to TcpServer, which names the connection, keeps it in its table and gives it to a
-- loop of the pool.
--
-- The modules:
-- - Common: lists, Boolean tests, equality tests, dictionaries (std::unordered_map as an association
--   list), sets of strings (std::set) and maps of such sets, and texts as C functions read them.
-- - Net.Buffer: src/net/Buffer.h and Buffer.cpp. Net.Channel: Channel.h, Channel.cpp and what
--   EventLoop::updateChannel and removeChannel do to a channel. Net.Connection: TcpConnection.h and
--   .cpp. Net.Loop: the closures, wake-ups and the end of the loop in EventLoop.h and .cpp, beside other
--   threads. Net.Pool: EventLoopThreadPool.h and .cpp. Net.Timers: the timers in EventLoop.h and .cpp.
--   Net.Server: TcpServer.h and .cpp. Net.Acceptor: Acceptor.h and .cpp.
-- - Protocol.Types: src/protocol/MqttTypes.h. Protocol.Codec: MqttCodec.h and .cpp.
-- - Gateway.Devices: src/gateway/DeviceManager.h and .cpp. Gateway.Server: GatewayServer.h and .cpp,
--   the commands in Gateway.Server.Commands and Gateway.Server.Enqueue. Gateway.Cluster:
--   ClusterManager.h and .cpp, and the registry entry that RedisClient::registerDevice in
--   src/storage/RedisClient.cpp writes.
-- - Storage.Redis: src/storage/RedisClient.h and .cpp, with Streams, Status, Registry and Nodes for
--   its groups of methods. Storage.Tsdb: TsdbClient.h and .cpp.
-- - Api.Server: src/api/ApiServer.h and .cpp.
-- - Platform.Alerts: src/platform/AlertEngine.h and .cpp. Platform.Metrics: MetricsCollector.h and
--   .cpp. Platform.Dashboard: WebDashboard.h and .cpp.
-- - Apps.Simulator: apps/simulator_main.cpp, the simulated devices. Apps.Gateway: the arguments in
--   apps/gateway_main.cpp.
--
-- How the model stands to the code. An object is a record of its fields and a method a function from
-- state to state, under the method's name in snake case. What a method does to the world outside its
-- object (system calls, callbacks, closures queued in the loop, packets sent, calls of Redis and of
-- the time series database) is a list of effects in the order of the calls; what the world answers
-- (the outcome of readv and write, the clock, which connections are up) is an argument. An assert that
-- fails is `none`. Bytes and machine integers are numbers below a power of two, with the wrap-around
-- written out where a sum or a cast can reach it; a pointer into a buffer is an index, or the list of
-- the bytes from it to the end. A connection is a number outside Net.Connection and Net.Server.
--
-- Bounds. encodeRemainingLength loops at most five times, as many as a 32-bit number has groups of
-- seven bits. The loop over the filters of a SUBSCRIBE and the loop of onMessage run on fuel, the
-- number of bytes at hand (and one more for onMessage); each round takes a byte at least. So does the
-- loop over the headers of an HTTP request. The bits of a percentile's product are counted on fuel 75,
-- which is enough for a product of 128 bits.
--
-- What is simplified. std::unordered_map is iterated in the order of insertion, which the language
-- leaves open. The heartbeat comparison of doubles is the comparison of integers that it rounds, exact
-- in the range of times at hand. Doubles are a type with the comparisons and sums that the code uses;
-- only the product in a percentile's rank is computed, rounded to 53 bits. An evaluation of alerts
-- reads the clock once. A text that a format takes by %s is cut at its first NUL byte
-- (Common.CString). hiredis and the server behind it are an argument of the Redis client, and what the
-- theorems about the registry rely on is the record KeepsHashes, about a key that holds a hash or
-- nothing, with no other client's command between those of one call, and about the stream of commands
-- the law Carries, about messages of one pair of field and value or more; the methods of Gateway that
-- call Redis take its answers as arguments, but for enqueueCommand and getOnlineNodes, which stand on
-- the model of the client. What a timer's callback does to the timers is an argument of Net.Timers.
-- The methods of one object run one after the other, as in one thread, also those of GatewayServer,
-- which the code lets run in the threads of several loops; only Net.Loop has several threads.
-- Allocation does not fail. Logging, sockets, starting threads, configuration and the page of the
-- dashboard are left out: they print, call the system or another program, or only connect the parts
-- above.
pub mod Common
pub mod Net
pub mod Protocol
pub mod Gateway
pub mod Platform
pub mod Storage
pub mod Api
pub mod Apps
