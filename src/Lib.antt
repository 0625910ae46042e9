-- ===== src/Lib.antt =====
-- The verification library of grpc_push_sdk, a client library in C++ for a push gateway: an
-- application logs a user in, joins groups, and is handed the messages of the gateway.
--
-- Parts. The C functions of include/push_sdk.h (src/push_sdk.cpp) make the loggers first
-- (src/common/log.cpp) and then act on one object, PushSDK (src/core/core.cpp, core.h). PushSDK makes
-- a request (src/core/packet.cpp), enters the call into a map under the instant of the request, and
-- hands the request to its Client (src/core/client.cpp), whose thread polls gRPC and moves requests to
-- a Stream (src/core/stream.cpp). A response carries the instant back as a decimal text, by which
-- PushSDK finds the call. A second thread ends the calls that were not answered in time, a third calls
-- the application. Each method leaves an item in the queue of the ELK uploader (src/elk), whose thread
-- posts them by the HTTP client (src/common/http_client.cpp).
--
-- Files. Api is src/push_sdk.cpp, and Api/Runs its functions and the rounds of all threads as steps.
-- Sdk is src/core/core.cpp and core.h: Sdk/State the object with the heap of its call contexts,
-- Sdk/Groups and Sdk/CallMap the two maps, Sdk/Correlation how a response finds its call, Sdk/Calls `call`, `call_sync` and `notify`, Sdk/Methods
-- Login, Logout, JoinGroup and LeaveGroup, Sdk/Session relogin, rejoin and what responses do to the
-- session, Sdk/Messages OnMessage, Sdk/Handlers the handlers, Sdk/Threads a round of each thread,
-- Sdk/Lifecycle Initialize and Destroy, Sdk/Run all of these as steps, and Sdk/Steps the rule for a
-- property that each step keeps. Sdk/Refinement has the abstract session with the move of each operation, Sdk/Outgoing a call with the
-- rounds of the client's thread that write its request (Client/Round, Client/Flush), Sdk/Exchange also the round that reads its answer, and
-- Sdk/Session/Retries the rounds of the timeout thread that repeat a login. Client, Stream, Packet and
-- Types are the files of those names in src/core; Log (Log/Output: what is written), Http
-- (http_client), Config and Utils (Utils/Url: URLEncode, Utils/Platform: the macros of the compiler)
-- those in src/common. Elk is src/elk/async_upload, and Elk/Request src/elk/upload_request.h, with a reader of its
-- objects in Elk/Request/Reader. Decimal
-- is std::to_string and std::stoll. A function has the name of the C++ one in snake case; a function
-- that returns early is a chain of helpers, one for each guard. Locks has the mutexes of all of these:
-- what each function locks and unlocks for the state that it finds (Locks/Methods, Locks/Rounds), and
-- threads that run such sequences under any schedule. Singleton is src/common/singleton.h, by which
-- the global objects are made. Common holds the shared names and lemmas, Witnesses the concrete
-- inputs.
--
-- Conventions. A method takes the state and returns the new one. The steps of Sdk and Api have no
-- locks: a step is what a thread does without letting another one see a state in between, and a
-- `call_sync` is two steps, around its wait. Locks orders all mutexes by a rank, and takes what the
-- functions find, and the calls that the application makes in a callback, as arguments; a wait on a
-- condition variable unlocks its mutex and locks it again, and may end at any time. In Singleton a
-- turn reads or writes one member, and turns happen one after the other. The uint64_t and int64_t
-- values are natural numbers, with the wrap-around where the code computes; a difference of instants
-- stops at 0, which no test of the code tells apart. Texts are lists of bytes. Clocks, serializers,
-- parsers and the platform are the fields of a `World`; gRPC's answers are the arguments of a round
-- (`Poll`), and the calls on its reader-writer are a list. What libevent does in a post is an
-- `Exchange`, what spdlog does when a logger is made a field of `Spdlog`, and JsonCpp's writer an
-- argument. `none` as the result of a step is the end of the process, or, for a round of the uploader,
-- that the attempts given to it do not end it.
--
-- Fuel. Only `sweep`, the inner loop of the timeout thread, has fuel: one more than the number of
-- waiting calls. Each turn of the loop erases the oldest call and adds at most one that is new, and
-- that a turn stops at; the theorem on check_timeouts shows that it never runs out while the clock is
-- steady. The uploader's loop of posts recurs on the list of its attempts.
--
-- Not modelled. The libraries themselves: spdlog, libevent, JsonCpp, gRPC and the generated protobuf
-- code. The format strings of the logs and the intervals of waits only reach these. The joins with
-- threads in the two Destroy functions are the test `has_ended` of Sdk/Lifecycle, and no part of the
-- sequences of Locks. The sizes in PushSDKUserInfo are natural numbers, at most the length of their
-- buffers: std::string throws on a negative size and reads beyond a shorter buffer. A Json object keeps
-- its members in the order of their assignment, where JsonCpp sorts them by name, which is left to the
-- writer. The memory that the destructors free, and Stream::Destroy, which releases gRPC's
-- objects.
pub mod Common
pub mod Int
pub mod Decimal
pub mod Types
pub mod Config
pub mod Utils
pub mod Packet
pub mod Stream
pub mod Client
pub mod Log
pub mod Locks
pub mod Singleton
pub mod Http
pub mod Elk
pub mod Sdk
pub mod Api
pub mod Witnesses
