-- ===== src/Lib.antt =====
-- RouteServer: a server that plays Sichuan mahjong for clients behind byte keys, and that keeps a pool
-- of proxies for them.
--
-- The parts, and the modules that model them:
--   mjai/          Mjai     the mahjong player. Bubble and Grain: the sorts of mjai/Ai.go
--                           (SortGrain, SortdGrain, SortGrainArrs). Weight: WeightVal and
--                           GetWeightVal of mjai/Block.go. NewBlock: mjai/NewBlock.go. Block: the
--                           type Block of mjai/Block.go, which NewBlock has replaced. Ai: the
--                           state of a player and its setters. Full: checkFull and GetPublicNum.
--                           Search: CheckJiao and CheckAllJiao. Outs: SelfSee, EasyOuts, Outs and
--                           OutDiscard. SeeOuts: SeeOuts. Search.Expected: what CheckJiao is to
--                           find. Sound: the shape of a player's state on which these
--                           are total.
--   robot/         Robot    robot/Server.go: users, methods, GetRecvData, Handle and ClearServer.
--                           Robot.Scmj: the methods of robot/SCMJ.go, which call the player.
--                           Pass: method 1. Discard: methods 4 and 6. Game: sequences of
--                           messages.
--   comm/          Comm     comm/function.go: byte numbers and IPv4 addresses, used by all parts.
--   proxyPool/     Proxy    Info and Check: proxyPool/ProxyInfo.go. Pool: the list
--                           of proxyPool/proxy.go. Relay: its SyncServer,
--                           GetRemoteAddr and RelayHandle.
--                           Calls: several calls of GetRemoteAddr at once, as a step relation.
--   scann/         Scann    scann/ScannDB.go: GetScannIP. Ports: GetScannPort, AddPortDB and
--                           the lines that UpdateIPDB reads.
--   main.go        Dispatch ProxyHandle, and the set-up of a client's pool.
--   Prelude and Tests hold shared helpers, and runs on concrete inputs.
--
-- State is passed explicitly: an operation takes the player, the server or the table and returns it.
-- An `Option` that is `none` stands for a run-time panic (a nil pointer, an index out of range) or
-- for a recursion without end, where a comment does not say otherwise. In the code a block's `No` is
-- a slice of the row in `Public[3].Now`; here the rows are kept in `Ai.public` only, and an update of
-- a block takes the row of its suit. Go's `int` is ℤ, with the wrap to 64 bits written out where
-- values from outside can reach it (byte numbers, times, shifts of addresses); an address and the port
-- of a proxy are the bit patterns of an `int`.
--
-- The recursion of WeightVal is on fuel, one more than the length of the run and the tiles of the
-- row; the theorems on its end show that this is enough. All other loops are over lists.
--
-- The step relation of `Proxy.Calls` has two parameters: what a read may give after a port was written,
-- and what it may give on a new connection on which nothing was.
--
-- Parameters: the table of proxies and the file system (`Proxy.Info.Db`), the dialling of a proxy
-- with the time that it took, the split of a host and port, what the network answers to a relay
-- (`Proxy.Relay.Link`), the table of address ranges (`Scann.Spans`) and a random number.
--
-- A player is `Sound` when it has four users with three rows of nine cells each, no count of a hand
-- is negative, there is one block for each suit with positions of a row, and each logged move has
-- at least three bytes; its blocks match the hand (`Steady`) when the runs and sums of each block
-- are those of its suit's row. A search changes the shared rows and takes the changes back, so
-- these hold again at its end, though not in between. As the hand and the suits settle the runs and
-- sums of the blocks that match, the player is then the one that it was but for the scores that its
-- blocks keep (`We`), which the searches build anew. What CheckJiao is to find (`Search.Expected`)
-- judges each tile by itself, on a copy of the player.
--
-- Not modelled: the sockets, locks and logs; the copying that RelayHandle of proxyPool/proxy.go
-- starts; the functions of scann/ScannDB.go that only create tables; the flags and the
-- configuration file of main.go; the package ai, an earlier player that main.go does not import and
-- that does not compile; the libraries under proxyPool/ProxyClient, proxyPool/SOCKSProxy and
-- proxyPool/HTTPProxy; the C++ programs.
pub mod Prelude
pub mod Comm
pub mod Proxy
pub mod Scann
pub mod Mjai
pub mod Robot
pub mod Dispatch
pub mod Tests
