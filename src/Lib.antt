-- ===== src/Lib.antt =====
-- A model of task_monitor: a daemon that starts the processes of a configuration, watches them, and
-- answers requests about them over a Unix socket; and the client library for those requests.
--
-- The parts of the program and their files here (paths of sources from the repository's root):
--   Base       lists over the native numbers, Boolean tests, the C `int` and `uint32_t`
--   Json       cJSON, a library outside the repository: a record of operations, IsJson its laws
--   Ring       ring_buf, outside the repository: RingBuf and its laws IsRing
--   ListApi    list.h, outside the repository: ListApi and its laws IsListApi
--   Sys        the calls of the system and of libev_api, as values that are recorded; in
--              Sys/Descriptors.antt the descriptors that such calls open and close
--   Socket     writeSocket of src/task_msg.cpp
--   Package    DATA_HEAD_LEN, ntohl and htonl, getAvailablePackage of src/task_msg.cpp; in
--              Package/Receiver.antt what MsgServer and MsgClient have in common as receivers of
--              packages, and in Package/Pipeline.antt a receiver as a queue
--   Send       the three writes of a message in MsgServer::parseServerData and MsgClient::sendRequest
--   Msg        the types of src/task_msg.h
--   Server     class MsgServer: its constructor and registerEventCb in Server.antt, the handlers
--              processHeartbeatReq, processQueryAllReq, processQuerySingleTaskReq,
--              processTaskActionReq and createFailMsg in Server/Handlers.antt, parseServerData,
--              procData and recvData in Server/Dispatch.antt; Server/Fragments.antt and
--              Server/Pipeline.antt follow requests that come in pieces
--   Client     class MsgClient: the state, sendRequest, the request timer and the destructor in
--              Client.antt, the senders sendReq... in Client/Requests.antt, processRspData and
--              parseClientData in Client/Responses.antt, procData and recvData in
--              Client/Receive.antt; Client/Sending.antt and Client/Delivery.antt follow one request
--              out and one reply in, Client/Pipeline.antt any replies, Client/Lifecycle.antt any
--              events, and Client/Promises.antt and Client/Typed.antt the callbacks over them;
--              Client/Ending.antt follows responses to the requests they end
--   Exchange   no code of its own: what one end builds against what the other end reads, and whole
--              conversations of a client with a server (Asked, Refused, Hearing, Query, Stream,
--              Replied)
--   NewClient  the constructor of TaskObjClient, as TaskObj and Core see the object it makes
--   TaskObj    class TaskObj of src/TaskObj.cpp
--   Core       src/task_core.cpp, with foreach_task of src/task_config.cpp; what may happen to its
--              lists is an Event in Core/Events.antt
--   Config     src/task_config.cpp: the file, its parsing, the global list
--   TaskObjClient  class TaskObjClient of src/TaskObjClient.cpp, over Server; its constructor against
--              NewClient in TaskObjClient/Summary.antt
--   TaskServer  class TaskServer of src/TaskServer.cpp, and its accept callback, over Core
--   TaskClient  src/task_client.cpp, the library's connection and heartbeat, over Client
--   TaskCli    src/task_cli.cpp, the command line tool, over Client; its output in
--              TaskCli/Printing.antt
--   Main       src/task_main.cpp, over Config and Core
--   Utils      getRandom of src/task_utils.cpp
--   Debug      the levels, the base name and the time of src/task_debug.h
--   Tests      concrete libraries and the theorems at concrete inputs
--
-- A byte that arrives takes this way: recvData puts it into the ring buffer, procData takes at most
-- one package out (Package), parseServerData or parseClientData reads the JSON text; the server
-- hands a request to the callback of its type (the ones of Core), and writes one reply (Send,
-- Socket); the client finds the waiting request by its id and calls its callback.
--
-- Parameters. cJSON, ring_buf and list.h are arguments of the definitions that use them; theorems
-- assume the laws IsJson, IsRing and IsListApi, which are documented behaviour of those libraries,
-- and Tests/Instances.antt has concrete ones for which the laws that are used hold. What the system
-- answers (writes, memory, fork, timers) is an argument as well: a list of answers for the writes, a
-- function `Alloc` for the allocations whose results the code tests.
--
-- Fuel. The write loop, the reading loop of the configuration and the read callbacks of
-- TaskObjClient, TaskClient and TaskCli recur on the answers of the system, and are `none` when these
-- run out; Socket.Delivery and Config.Loading say how many answers are enough, and TaskClient.Reading
-- which answers never are. The loop of TaskCli over the options takes a number of rounds, since no
-- number is enough: it is `running` when they are over. All other loops recur on a list or on a
-- count. Besides, `none` is a call that does not return: an exception that nobody
-- catches, an array overrun, a use of freed memory.
--
-- Conventions. Numbers are natural numbers with the wrap of `uint32_t` written out; the C `int` is
-- ℤ, whose own overflow is undefined in C and does not occur here. C strings are lists of codes
-- without the NUL. A `void *` that carries a request or a reply is typed by the event it serves.
-- Members that a constructor does not set keep the memory's old value, an argument. Log output is
-- left out. The sources do not compile as they stand; these readings are taken: parseServerData
-- hands `value`, the item "data", to the handlers; `writeSocket(htonl(x))` writes the four bytes of
-- x in network order to the connection, and `ntohl(buf)` reads four bytes; `**dataOut = data`
-- stores the pointer; a request's callback that is called with a code alone gets no data; the
-- senders pass their event type to sendRequest; the `pid` of sendReqTaskAction, and so of
-- inst_init_cb of src/task_cli.cpp, is an argument, and the number that stands there for a callback
-- is a value of its own; the child of a fork runs a text that was destroyed, so that only the fork
-- is recorded; the loops of set_global_config run over the list they are given; the
-- members mReadIo and mClientFd of TaskObj are those that src/TaskObj.cpp uses; the destroy
-- functions of libev_api clear the handle; processHeartbeat gets the task it means to get;
-- getsockopt asks about the accepted descriptor; readSocket is one `read`; foreach_task runs over the
-- list of the configuration; cli_readio_cb reads into the buffer that it declares, and
-- clear_global_data, which task_cli.cpp calls and does not have, does nothing there.
--
-- Not modelled: readSocket of src/task_utils.cpp, whose `continue` stands outside of any loop,
-- usage of src/task_cli.cpp and the macros of src/task_debug.h, which only print, the destructor of
-- MsgServer, which only frees, and the release of cJSON trees. In Core a client of cliList stands
-- as its descriptor, its pid and its flags alone: a constructor that succeeds has closed the
-- descriptor, so that no request reaches the server of such a client.
pub mod Base
pub mod Socket
pub mod Ring
pub mod Package
pub mod Json
pub mod Msg
pub mod Send
pub mod Server
pub mod ListApi
pub mod Client
pub mod Exchange
pub mod Sys
pub mod NewClient
pub mod TaskObj
pub mod Core
pub mod Config
pub mod TaskObjClient
pub mod TaskServer
pub mod TaskClient
pub mod TaskCli
pub mod Utils
pub mod Debug
pub mod Main
mod Tests
