-- ===== src/Lib.antt =====
-- cbbncd, a bouncer of FTP control and traffic connections.
--
-- A client's control connection (src/bnc/bncsession.cpp) is paired with one to the site
-- (src/bnc/bncsessionclient.cpp). With traffic bouncing on, the commands and responses that set up
-- a data connection are gathered (src/ftp/) and rewritten, and each transfer is a session
-- (src/bnc/trafficbncsession.cpp) with a listener on a port of the pool (src/listenportmanager.cpp).
--
-- Which file models what:
-- ListenPortManager is src/listenportmanager.cpp. `acquire_port`, `release_port`,
--   `mark_port_unavailable`, `tick` and `set_port_range` are its methods. Search, Count and Free are
--   about single calls, Held and Ledger about histories and about who holds a port.
-- Ftp.PasvString is src/ftp/pasvstring.cpp. Ftp.Buffer: the buffer of both stream parsers, which are
--   Ftp.CommandParser (src/ftp/commandparser.cpp) and Ftp.ResponseParser
--   (src/ftp/responseparser.cpp).
-- Traffic.Conns is src/bnc/pasvlistener.cpp, pasvconn.cpp and portconn.cpp. Traffic.Session:
--   src/bnc/trafficbncsession.cpp. Traffic.Sessions: src/bnc/trafficbncsessions.cpp. Traffic.World
--   is what they share: the pool, and the calls to the IOManager in order.
-- Bnc.Client is src/bnc/bncsessionclient.cpp, the connection to the site: Commands has `sendData`
--   (here `send_command`), Responses has `FDData` and Brackets the text it replaces. Commands.Ports
--   and Responses.Ports follow the ports of the client, Endings are about how the calls end.
-- Bnc.Ident is src/bnc/ident.cpp, Bnc.Session with its Events src/bnc/bncsession.cpp, Bnc.Bouncer
--   src/bnc/bnc.cpp. A call from one object to the other goes through the definitions of both: the
--   session record holds its client and its ident.
-- Util is src/util.cpp, Address src/address.cpp, Core.DataBlockPool src/core/datablockpool.cpp and
--   datablock.cpp.
-- Core.SignalEvents, Event, BlockingQueue and WorkManager are src/core/ with these names, and
--   asynctask.cpp, asyncworker.cpp and semaphore.h. WorkManager has what is asked of the manager,
--   WorkManager.Worker a round of the worker thread, WorkManager.Histories the steps of all threads
--   in any order.
-- Core.IoManager is src/core/iomanager.cpp, Core.SocketInfo socketinfo.h, Core.Polling pollingpoll.h.
--   IoManager has the polls, the pauses and the closes; Sending, Receiving, Connecting, Negotiation
--   and Serving the handlers and registrations, Loop the switch of the thread, Timeouts the tick,
--   Asking and Binding the rest. It holds a work manager, to which its events go.
-- Core.TickPoke is src/core/tickpoke.cpp and tickpoketarget.cpp: the timers of a tick.
-- Types is src/core/types.h. Base: lists, numbers and texts. Tests: runs and instances.
--
-- Numbers are unbounded but where the source cuts them: `unsigned int` sizes and times are taken
-- modulo 2 ^ 32, and what std::stoi, std::stol and `int` hold is written out. A text is the list of
-- its bytes.
--
-- Loops run on fuel: the search of `acquirePort` on the number of ports, the loop of
-- TrafficBncSession::activate on one more than that, the doubling of a buffer on 33 rounds, and the
-- loops that replace bytes, erase spaces and split a text on one more than the length of the text;
-- the loop of sendData on the number of bytes, and the one that closes sockets that have timed out
-- on one more than the number of sockets that connect. handleTCPSSLIn is given the reads that
-- succeed, as a list.
-- The results below that speak of these functions leave no case in which the fuel runs out.
--
-- Values of rand(), time(), malloc, of the system and of OpenSSL are arguments; what the bouncer is
-- told by the IOManager is an argument of its operations too, and its calls are recorded. A call that
-- an exception leaves, that fails an assertion, whose behaviour is undefined or that does not end is
-- a value of Bnc.Client.Outcome, or none where a definition says so. Not modelled are log lines, the
-- start of threads and their locks, the sleep of the ticker, the set-up of OpenSSL
-- (src/core/sslmanager.cpp), the program options and keys (src/main.cpp, src/crypto.cpp), the text
-- patterns of src/core/util.cpp, and the wait of the pollers.
pub mod Base
pub mod Types
pub mod ListenPortManager
pub mod Ftp
pub mod Util
pub mod Address
pub mod Traffic
pub mod Bnc
pub mod Core
mod Tests
