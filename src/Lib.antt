-- ===== src/Lib.antt =====
-- Verification of the chat system: the gateway, the logic, user, message, push and admin services,
-- and the shared library that they stand on.
--
-- A client's frame reaches the gateway (gateway/src/tcp_server.cpp), which answers heartbeats and
-- forwards messages. A message comes in through SendMessage of the logic service (logic/main.cpp).
-- The processor (logic/src/message_processor.cpp) picks a handler (logic/src/chat_handler.cpp),
-- which validates the message and masks sensitive words (logic/src/sensitive_filter.cpp), and then
-- saves it through the message service (message/src/service/message_service.cpp) with retries
-- (common/src/utils/retry.h). The message service stores the body in MongoDB and an index row in
-- MySQL through its DAOs (message/src/dao). The user service registers users, logs them in and
-- keeps their friends (user/src/service), through its DAOs (user/src/dao) and a token manager on
-- Redis (user/src/token_manager.cpp). All of them share the MySQL pool
-- (common/src/db/mysql_pool.cpp), the configuration (common/src/config/config_manager.cpp) and the
-- Redis client (common/src/redis/redis_client.cpp). The push service (push/src/push_manager.cpp)
-- reads messages from a queue (common/src/mq/rabbitmq_client.cpp) and notifies devices. The gateway
-- runs its handlers on a pool of threads (gateway/src/gateway_server.cpp), which also answer a
-- health check (gateway/src/http_server.cpp). The admin service (admin/src) is an HTTP server with a
-- few routes.
--
-- Files:
--   Prelude            shared names, Boolean tests, lists, texts as lists of bytes, integers
--   Common/Effect      code that may throw and acts on a world
--   Common/Retry       ExecuteWithRetry and ExecuteWithRetryVoid; Attempts and Keeps
--   Common/Chars       the functions of the standard library on characters and strings; Decimal
--                      and Finding are about numbers and searches
--   Common/Http        responses of HTTP/1.1, as a client reads them
--   Common/StringUtils StringUtils::Split and Trim; Splitting and Trimming
--   Common/Config      ConfigManager: Lines has the helpers of the file, Load the parser with its
--                      LoadState for the locals of the function, Get the getters; Trimming, Plain,
--                      Printed, Files, Sections, Items, StringLists, Ranges and Numbers are
--                      about them
--   Common/MysqlPool   MysqlConnectionPool with one function per member function; Leases has the
--                      steps of the threads, Starting is about Initialize
--   Common/MongoPool   MongoConnectionPool and the redaction of its URI; Redacting, Logging and
--                      Restarting
--   Common/Startup     Init of the user and the message service; Started;
--                      Common/SampleFile is a configuration file for the examples
--   User/Startup, Message/Startup   main of user/main.cpp and message/main.cpp up to the server;
--                      User/Simulation and Message/Simulation are the clients behind it
--   Common/Logger      Logger, with the level that a configuration gives; Levels
--   Common/RedisClient RedisClient over a parameter for redis++
--   Common/RabbitmqClient  RabbitMQClient, with the loop of Subscribe cut into rounds; Settling
--   Common/Sql         a scope of MysqlConnectionGuard around statements, and Guards of it
--   Logic/Trie         TrieNode, AddWord and Init; Words
--   Logic/SensitiveFilter  HasSensitiveWord and Filter; Detect, Reading, Mask, Censor, Clean
--                      and Loaded
--   Logic/ChatHandler  LogicChatMsg and the handlers; Sending
--   Logic/Processor    MessageProcessor and SendMessage; Outgoing
--   Logic/Startup      main of logic/main.cpp up to the gRPC server
--   User/Model, UserDao, FriendDao, TokenManager, AuthService, FriendService   user/src
--   User/FriendDao/Relation   the friends as a relation on users
--   User/Managers      FriendManager of user/src/friend_manager.cpp
--   User/TokenManager/Table   the sessions as a table of tokens that end after seven days
--   User/AuthService/Returning   about a user who registers and logs in, over Directory, a table of
--                      users and a Redis that are up
--   Message/Model, MsgBodyDao, MsgIndexDao, MessageService   message/src; MsgIndexDao/Cursor is
--                      about the sequence id, MessageService/Pulling about offline messages,
--                      and MessageService/Delivery about a saved message, over Stores, two stores
--                      that are up
--   Message/Storage    message/src/mysql_index.cpp and message/src/mongo_storage.cpp
--   Gateway/TcpConnection  TcpConnection of gateway/src/tcp_server.cpp, its handlers as functions on
--                      the connection and the world; Effects, Answers, Running and
--                      Ping
--   Gateway/HttpServer    HttpConnection of gateway/src/http_server.cpp
--   Gateway/GatewayServer GatewayServer, TcpServer and HttpServer: the threads and the connections
--                      as steps; Starving and Accepting
--   Gateway/Settings   what main of gateway/main.cpp reads of the configuration
--   Gateway/Startup    main of gateway/main.cpp up to the run of the server
--   Admin/ApiHandler   ApiHandler of admin/src/api_handler.cpp
--   Admin/AdminServer  HttpConnection of admin/src/admin_server.cpp; Requests, Responses, Statuses;
--                      Serving has AdminServer and its steps, with Phases and Throwing
--   Push/PushManager   PushManager of push/src/push_manager.cpp; Routing
--   Push/Clients       APNsClient and FCMClient: their start and the requests that they build
--   Push/Startup       the consumer of push/main.cpp; Notifying
--   Examples of each   the theorems at concrete inputs
--
-- A std::string is the list of its bytes, int and int64_t are integers without a bound, uint64_t a
-- natural number; where a length wraps around, in StringUtils::Trim, the modulus is written out.
-- Log lines are not part of the world, but for those of the start of the MongoDB pool, where one
-- shows its URI. What the code calls of MySQL, MongoDB,
-- Redis, bcrypt, JSON, gRPC, the clock and the random device are parameters, functions on a world
-- type W. A local that a retried lambda captures by reference stands beside the world.
--
-- Fuel: the outer loop of Filter has as many rounds as the text has bytes, since its index grows in
-- every round. Split has one round more than the text has bytes, since with a delimiter every round
-- moves behind one. The retry loop recurses on the retries that are left.
--
-- The loop of Subscribe has no end: it is cut into any number of rounds. The steps of the servers
-- are any sequence of the handlers that asio may call. A handler is one step: no strand keeps two
-- handlers of one gateway connection from running on two threads at once, and what such handlers
-- interleave is outside the model.
--
-- Not modelled: the other log lines, signal handlers, the simulated gRPC servers, which only wait,
-- admin/main.cpp, which starts the server with constants, and the build without gRPC, which answers
-- a made up sequence id.
pub mod Prelude
pub mod Common
pub mod Logic
pub mod User
pub mod Message
pub mod Gateway
pub mod Push
pub mod Admin
