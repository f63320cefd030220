-- ===== src/Lib.antt =====
-- conntop shows the network connections of a machine. It runs alone, as a server, or as the client
-- of a server: the server collects connections and sends them, as lines of JSON over a stream
-- socket, to its clients. This library models how client and server talk and what they say, the
-- collector, the connections that the server keeps and those that a client makes of its messages,
-- and the list of connections that is shown, with its window and its orders.
--
-- Parts and files:
--   * Wire.Writer: `StreamSocketWriter` of Source/SocketReaderWriter.hpp. `m_data` is a pointer into
--     the writer's own message, its buffer, or a message shared with the rest of the server; the
--     shared messages live in a store, so that a change of one is seen through the pointer. Its
--     operations `isSending`, `stop`, `send`, `sendShared` and `doSend` are `is_sending`, `stop`,
--     `send`, `send_shared` and `do_send`, which also gives the bytes that went out.
--   * Wire.Reader: `StreamSocketReader` of the same file, over any parser; `do_receive` is
--     `doReceive`, with what the socket's `receive` answers as an argument.
--   * Wire.Parser: `MessageParser` of Source/ClientServerProtocol.hpp, over RapidJSON's iterative
--     reader and the handler of its tokens (`TokenReader`, a parameter): `tokens` and `do_parse` are
--     `doParse`, `rounds` and `parse` are `parse`.
--   * Json: what the program calls of RapidJSON, as a record of operations and laws that every
--     definition which reads or writes a document takes as a parameter.
--   * Protocol, Protocol.Message: the enumerations, their names, and the messages of
--     `ClientServerProtocol` in Source/ClientServerProtocol.cpp. `create_msg_string` is
--     `CreateMsgString`; the host, the command line and the version are in `Surroundings`.
--   * Session.Client, Session.Client.Poll: `ClientSession` of Source/ClientServerProtocol.hpp and
--     Source/ClientServerProtocol.cpp: `onMessage`, `onUpdate`, `connect`, `disconnect`,
--     `requestData`, and `SocketPollHandler` with its input, output, connection and error stages.
--   * Session.Server, Session.Server.Poll: `ServerContext` and `ServerSession` of the same files.
--     A queue entry that is not owned is `shared_msg` with the place of the message it points at.
--   * Session.Flush: one call of `doSend` in a send loop, with what the socket answers.
--   * Connection: Source/Connection.hpp and Source/Connection.cpp, with the equality of addresses
--     and ports (Source/Address.hpp, Source/Port.hpp): kinds, states, their names, equality.
--   * Connection.Serialize, Connection.Deserialize: `ConnectionData::serialize`, and the reading
--     half of `ConnectionData::Deserialize`; Connection.Deserialize.Apply: its other half, which
--     tells an `IConnectionUpdateCallback`, a record of functions on the state behind it.
--   * Storage: `ConnectionStorage` of Source/ConnectionStorage.hpp, with maps as lists of entries.
--     `Backed` is what a callback is held to that keeps its connections in such a storage.
--   * Server: `Server` of Source/Server.cpp, with its sessions as a list and what they share in
--     `Host`: `on_update` is `onUpdate`, `look_over` and `serve_all` its two loops, `make_messages`
--     the part between them that builds the messages.
--   * Server.Updates: `ConnectionUpdateSerializer` and `ConnectionStorageSerializer` of
--     Source/Server.hpp: the server's connections, and the items that its messages carry.
--   * Client, Client.Connect: `Client` and `ClientConnector` of Source/Client.cpp. The callbacks of
--     the session are `on_session_data` and so on; `connections` is the connection list, behind its
--     `UpdateCallback`. `attempt` stands for the socket's `connect`; the loop of `tryNext` runs on
--     fuel, one more than the combinations of addresses and ports.
--   * Conntrack, Conntrack.Collector: Source/Collector_Netfilter/Conntrack.hpp and Conntrack.cpp:
--     `measured` is the part of `handleQuery` that compares counters, `extract_address_port`,
--     `handle_query`, `handle_event`, `event_poll_handler` and `on_update` are its functions. What
--     the library calls back with and returns are arguments.
--   * ConnectionList, ConnectionList.Operations, ConnectionList.Cursor, ConnectionList.Resolved:
--     `ConnectionList` of Source/ConnectionList.hpp and Source/ConnectionList.cpp. `Listing` has its
--     fields; a pointer to a connection's data is the connection, looked up in the storage by
--     `data_at`. `fill_loop` and `fill_step` are the loop of `fill`, `insert_item` is `insertItem`
--     with `std::upper_bound` written out, `StdSort` stands for `std::sort`, and `IsSort` is what is
--     asked of it. Operations has what a session or a collector calls (`callback`), Cursor what the
--     screen calls, Resolved what the resolver's answers do. `Reach.Step` is one call of any.
--   * ConnectionList.Keys, ConnectionList.View: the abstract list, of connections without flags and
--     data, with the window, the cursor and the detail. Shown, Filled, Views, Moved and Steered say
--     which step of it each operation is; Valid, Ordered and First are the proofs, and Received is
--     about a client's list when a server's items come.
--   * ConnectionList.Drawing: the loop of `ScreenConnectionList::updateList` in
--     Source/UI_Curses/Screens/ScreenConnectionList.cpp, with what it draws as a list, on fuel, one
--     more round than there are visible items to be redrawn.
--   * ConnectionList.Sort: the orders that `ConnectionList::updateCompareFunc` chooses from. What
--     the resolver has found out about addresses and ports is a record of functions, `Names`.
--   * Tests: theorems at concrete inputs, with a small JSON library that meets the laws.
--
-- A handler that may throw gives an `Outcome`: the state when it returned, or the pieces of the
-- exception's text and the state when it threw. The owner of a session is a record of functions on
-- the pair of the owner's world and the session, so a callback may call the session's methods. What
-- the socket does in one run of a poll handler is a parameter, `SocketAnswers`: the parsed messages
-- or the failure of `doReceive`, the answer to the k-th `send`, and those to `verifyConnect` and
-- `getRemoteEndpoint`. The poll system's registration of a session is its field `poll`.
--
-- Numbers: ports, flags, timestamps and counters are natural numbers below the width of their C++
-- type, with the wrap-around written out (`add32`); an `int` is its 32-bit pattern. The send loops
-- are recursive on the queue, which each round shortens, so no fuel is needed. The loops of the
-- parser run on fuel, one more than the bytes there are: each round takes at least one byte. The
-- difference of two 64-bit counters is `sub64`.
--
-- Not modelled: the handler that builds a value from tokens, the hash of connections, the opening
-- of sockets by `Server` and by the collector, the calls of `Client` into the resolver, what the
-- resolver does with what it is asked for, the screens but for that loop, the command line, and the
-- platform layer. An item of a message that is no object is outside of what RapidJSON's
-- `FindMember` is made for, and of what the model says. Source/Platform, Source/UI_Curses and the libraries under Library are input and
-- output, or code that the program only calls.
pub mod Prelude
pub mod Connection
pub mod Wire
pub mod Json
pub mod Protocol
pub mod Session
pub mod Storage
pub mod Server
pub mod Client
pub mod Conntrack
pub mod ConnectionList
pub mod Tests
