-- ===== src/Lib.antt =====
-- The C++ SDK of the Model Context Protocol: a verification library for the logic of
-- its tasks, its session lifecycle, its JSON-RPC router, its server's registries and lists, and
-- the headers of its HTTP transport.
--
-- A server keeps tasks in a store, which many threads call under one mutex; the task receiver
-- answers the `tasks/...` requests from it, with cursors in base64url. A session runs the
-- initialize exchange, in which client and server agree on a protocol version, and guards what may
-- be sent in each of its states. The router keeps the outbound requests in flight and settles the
-- promise of each, and keeps the inbound requests of each sender until their handlers are done. A
-- server offers tools, resources and prompts, lists them page by page, and tells subscribers of
-- changes. The HTTP transport writes messages as server-sent events, whose ids carry a
-- stream and a cursor.
--
-- Files and the code that they model:
--   Base, Base/...       lists, maps, integers, decimal texts and `std::stoull`.
--   Text/Base64Url       include/mcp/detail/base64url.hpp (encodeBase64UrlNoPad, decodeBase64UrlNoPad).
--   Jsonrpc/Json         the JSON library (jsoncons), a record of operations that clients take.
--   Jsonrpc/Messages     include/mcp/jsonrpc (requests, responses) and the factories of
--                        src/jsonrpc/messages.cpp.
--   Jsonrpc/Cancellation include/mcp/util/cancellation.hpp and extractProgressToken of
--                        include/mcp/util/progress.hpp.
--   Jsonrpc/Router       the outbound half of the class Router of src/jsonrpc/router.cpp (sendRequest,
--                        dispatchResponse, handleRequestTimeout); Router/Ops has the operations,
--                        Router/Outbound sequences of their sections under the mutex.
--   Jsonrpc/Inbound      its inbound half (dispatchRequest, markInboundRequestActive,
--                        completeInboundRequest, dispatchNotification, emitProgress): Inbound/Steps
--                        has the interleavings of its sections, Inbound/Changes what one can do,
--                        Inbound/Ids, Inbound/Runs and Inbound/Lookup what the proofs share.
--   Http/EventId         makeEventId and parseEventId of include/mcp/http/sse/encoding.hpp.
--   Http/Events          encodeEvents and parseEvents of the same file, with their helpers.
--   Tasks/Status         the task states of src/util/tasks.cpp (isValidTaskStatusTransition).
--   Tasks/Store          InMemoryTaskStore: its state. Store/Ops has its operations, Store/History
--                        sequences of calls and waitForTaskTerminal, Store/Changes what one call does.
--   Tasks/Pagination     makePaginationCursor, parsePaginationCursor, paginate.
--   Tasks/Requests       parseTaskAugmentation, taskToJson and the like.
--   Tasks/Receiver       TaskReceiver: handleTasksGetRequest and the other handlers.
--   Lifecycle/Capabilities and Lifecycle/Codec
--                        include/mcp/lifecycle/session and src/detail/initialize_codec.cpp.
--   Server               the class Server of src/server/server.cpp: its state and notifications;
--                        Server/Registration, Server/Lists and Server/Requests its operations,
--                        Server/Registry the lists by name, Server/Directory a specification of the
--                        registrations, four maps from names to entries, Server/Cursors the cursors of
--                        src/server/detail/helpers.cpp.
--   Text/Ascii           include/mcp/detail/ascii.hpp.
--   Http/Streams         the streams of src/transport/http/server.cpp: the events that each retains
--                        and their replay; Retained, Replay and Resume hold the proofs.
--   Http/Routing         the choice of a stream and the messages that wait for one, in the same file;
--                        Waiting and Delivery hold the proofs.
--   Http/Headers, Http/Validation and Http/HeaderState
--                        header_utils.hpp, request_validator.hpp and the header states of
--                        include/mcp/transport/http.
--   Lifecycle/Session    the class Session of src/lifecycle/session.cpp: its state and guards;
--                        Session/Versions the choice of a version, Session/Handshake the exchange.
--   Tests                runs on concrete inputs, with a small JSON library.
--
-- A method becomes a function from the old state to the new state and the result. A section that
-- holds the mutex is one step, so an interleaving is a list of calls. A thrown exception is a
-- constructor of the result type. A map is an association list; numbers of 64 bits wrap by
-- `% 2 ^ 64`. Strings are texts, and lists of bytes where the code looks at single characters.
--
-- Parameters: the JSON library (`JsonApi`), the calendar behind `toIso8601Utc`, the readings of the
-- clock, the random ids, the diagnostics of the schema validator, the comparison of progress
-- values (doubles) and isOriginAllowed, each an argument. The models state no law of the JSON library.
--
-- Fuel: `decimal n` has n + 1 steps, more than the digits of n. `read_pages` has one step more than
-- there are items, and each page but an empty one takes an item or more. The loop that draws task
-- ids takes the ids drawn, and is `none` while it still draws. `wait_for_task_terminal` takes the
-- rounds of the waiter, and is `none` while it still waits.
--
-- Not modelled: sockets, TLS, pipes and threads of the transports and runners; the answers to POST, the
-- legacy endpoints and the client of the HTTP transport; OAuth; the JSON
-- schema validator, which calls a library; message parsing; the client; the
-- calls of the application's handlers by tools/call, resources/read, prompts/get and
-- completion/complete; the progress that a peer reports to the router; the placeholder response of Session::sendRequest.
pub mod Base
pub mod Text
pub mod Jsonrpc
pub mod Http
pub mod Tasks
pub mod Lifecycle
pub mod Server
pub mod Tests
