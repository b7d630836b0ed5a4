-- ===== src/Lib.antt =====
-- Verification of the InfiniBand benchmark programs.
--
-- The repository holds programs that measure a ping-pong. Two do so over InfiniBand:
-- multithreadIB.c, with one queue pair for each of several threads, and multistreamTestRunner.c, with
-- several queue pairs on one thread. Both exchange the addresses of their queue pairs over a TCP
-- connection, run a completion loop on each end, and write the measures of all rounds to a CSV file by
-- MetricsIBV.c. The others do so over TCP alone.
--
-- How the files correspond to the code:
--
--   Base        numbers, lists, options and C's signed integers.
--   Platform    the calls of the C library, the kernel and libibverbs (Calls), what a run leaves of
--               them, the newest first (Events), programs as functions of an environment that answers
--               calls (Monad), rules for what they return (Gives), the resources that a run holds
--               (Resources) and rules for them (Hoare).
--   Wire        multithreadIBSupport.c, `gid_to_wire_gid` and `wire_gid_to_gid` (Gid), and the message
--               "%04x:%06x:%06x:%s" of the exchange functions (Dest). Hex has `sprintf` and `sscanf` of
--               "%x" and "%s" as the C standard describes them.
--   Support     multithreadIBSupport.c, the functions that ask for the attributes of a port.
--   Sockets     multithreadIB.c, `createServerConnection`, `acceptClientConnection` and
--               `createClientSocketConnection`.
--   MultiThread multithreadIB.c: `pp_connect_ctx` (Connect), `pp_init_ctx` and `pp_close_ctx`
--               (Context), the requests and the completion loop (Engine), the two exchange functions
--               (Exchange), `runPingPong` (Run) and `main` (Launch, Main). Pair puts the completion
--               loops of a client and a server together, as a step relation.
--   MultiStream multistreamTestRunner.c, in the same parts. Pair has a client and a server with several
--               queue pairs each.
--   Metrics     MetricsIBV.c, over a parameter for the doubles.
--   Tcp         the same benchmark over TCP, in C++: the classes of Stream.cpp, Acceptor.cpp and
--               Connector.cpp, the messages (Message), connections (Client) and rounds (Rounds) of
--               MultiStreamTcpClient.cpp, MultiThreadTcpClient.cpp and Metrics.cpp, and the servers
--               MultiThreadTcpServer.cpp (ThreadServer) and NonBlockingTcpServer.cpp (StreamServer).
--   Drafts      temp/CommonIBUtilFuncs.cpp, temp/SimpleIBClient.cpp and temp/SimpleIBServer.cpp: the
--               connection, the exchange and the setup (Client, Server) of an earlier draft with several
--               queue pairs.
--   Tests       the theorems at concrete inputs.
--
-- A program is a function from the calls made so far to a value or a failure, with the calls made
-- then. A function that returns NULL or a nonzero number where it fails is a failed run; where the
-- caller goes on with the failure, it is a value. What a call returns is up to the environment, which
-- every theorem takes as an argument. Handles, pointers and descriptors are numbers, 0 is NULL.
--
-- Bounds and fuel: integers are natural numbers where the source has no negative ones, with the
-- wrap-around of the bytes and words written out. `retry` runs on eight rounds: the delays 1, 2, …
-- 64 need seven, and the eighth finds the limit passed; a run that is out of rounds is a failed one,
-- which does not happen. The completion loops run on fuel, since polling ends only when the hardware
-- answers; a loop that runs out returns none. The step relations of the two Pair modules
-- have no fuel. The loops of the TCP programs that wait for the network run on fuel as well: the
-- theorems about them say which fuel is enough, or hold for any. The `while (1)` of a server runs
-- for a given number of rounds. The threads of MultiThreadTcpClient.cpp run one behind the other, each
-- as it is joined, and are always created; a thread that runs out of fuel is one that is waited for.
-- A store behind the end of a message ends the model of that program, which may go on in fact.
--
-- Not modelled: printed text, the text of the CSV file, the parsing of the arguments by `atoi`,
-- whose values are inputs, the times that threads return, which are a parameter, and the memory of
-- the service name. The example in Original is a copy of the one of libibverbs. The drafts in temp
-- are not built; of them SingleInfiniBandClient.c and SingleInfiniBandServer.c call functions that
-- are not kept, and temp.cpp and temp2.c are edited copies of the same example: these are left out.
pub mod Base
pub mod Platform
pub mod Wire
pub mod MultiThread
pub mod Sockets
pub mod Metrics
pub mod MultiStream
pub mod Tests
pub mod Tcp
pub mod Support
pub mod Drafts
