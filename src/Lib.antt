-- ===== src/Lib.antt =====
-- Networked Capture-the-Flag: the wire protocol, the client's copy of the game, the
-- movement that server and client share, the server's simulation of a match, its lobby, and the
-- field of distances by which a bot finds its way.
--
-- The program is a server and its clients. They exchange messages that `shared/protocol.cpp`
-- encodes over the cursors of `shared/bytebuffer.cpp`: TCP frames for the lobby and the events of
-- the match, UDP datagrams for inputs and snapshots. The server sends the state of the world as a
-- full snapshot from time to time and as the difference to the last one in between; a client keeps
-- a copy of the last snapshot to which it applies the differences.
--
-- Prelude     numbers, tests, lists and signed integers that the modules share
-- ByteBuffer  shared/bytebuffer.{h,cpp}: the writer and the reader as records, with the buffer, the
--             position and the sticky failure flag; `e ⨾ f` runs two writes, a `Parser` is a reader
--             with `return false` as `none`; Codec says that an encoder and a decoder fit together
-- GameTypes   shared/game_types.h, and shared/game_config.h in Config
-- Protocol    shared/protocol.{h,cpp}: Fields and Slots for the shared helpers and loops, Handshake
--             and Events for the messages, Snapshot and Delta for the state of the world
-- Client      client/net_client.cpp in SnapshotCache: the snapshots that a client receives;
--             what it makes of other messages in Events; its datagrams in Sends; the handshake,
--             the reads of its sockets and its timers in NetClient;
--             client/prediction.cpp in Prediction: the local player's ticks and reconciliation
-- Map         shared/map.cpp: the tile grid and the collision test
-- Movement    shared/movement.cpp: the step of a player that server and client share
-- RingBuffer  shared/ring_buffer.h: the ring of a fixed capacity
-- Framing     shared/net_util.cpp, recv_framed, and the loop of client/net_client.cpp around it; the
--             handler of a frame is a parameter; send_all in Sends
-- Bot         bot/flow_field.cpp in FlowField: the search, its reads and the steering
-- Server      server/lobby.cpp in Lobby: the roster, its host and the deal of the teams
--             server/client_registry.cpp in Registry: the clients by their identifiers
--             server/broadcast.cpp in Broadcast: what goes to every client
--             server/net_server.cpp in NetServer: the handlers of the network thread; its TCP
--             connections in Streams; its start, its poll loop and its end in Rounds
--             server/queues.cpp in Queues: the queues between the two threads
--             server/sim.cpp in Sim: the state of a match; a module for the phases of a tick
--             (Roster, Inputs, Ray, Combat, Flags, Publish, Tick), and modules for what is proved
-- Tests       runs at concrete inputs
--
-- Numbers: a byte or an unsigned integer of the source is a natural number, reduced where the
-- source casts or a write truncates; a signed integer is a ℤ of Prelude. A buffer is a list of
-- bytes whose length is its capacity. The loops run over the slots of a list, so no fuel is needed;
-- the loop over a receive buffer has fuel for each byte, while each frame takes three bytes or more.
-- Parallel arrays of a message are one list of slots; a message object that a decoder fills starts
-- as the source initialises it.
--
-- The shuffle of std::shuffle is a parameter: what is used of it is that it keeps every player as
-- often as it occurs.
--
-- A tick of the simulation is a function of its whole state. The rounded cosine and sine of an
-- angle of server/sim.cpp are a parameter. The march of a shot has the steps of the source's own loop.
--
-- The network thread's state has lists for what it hands to the system; its handlers take the time,
-- the token of a new client and the shuffle as parameters. A name that comes with no zero byte, past
-- whose array the source reads, is taken to end with its last byte.
-- A frame that the server or a client hands to send_all at once is one entry of such a list, as if the
-- socket took it whole.
--
-- What the system returns for a read or a write of a connection is a list of results, in order. So
-- is what a client sees while it connects: for each turn of the wait, the time at which the deadline
-- is read and what came; at the end of a list the time is up, or a read would block.
--
-- The search of a flow field has fuel for a round per tile, 1000 of them. A tile enters the queue at
-- most once, so that is enough: with less, a tile that can be reached could be left without its distance.
--
-- The poll loop is given turns, and for each the results of the poller with what the calls of their
-- handlers return; the events that the simulation pushes in between come with the results.
--
-- Not modelled: the pollers, server/poller_epoll.cpp and server/poller_poll.cpp; the sleep of the
-- simulation's thread between ticks and its wake descriptor; the targets and the aim of a bot in
-- bot/bot_ai.cpp, the interpolation and the drawing of client/, which compute in floating point; and
-- sockets, threads, the main loops of the programs and logging, which are system I/O.
pub mod Prelude
pub mod ByteBuffer
pub mod GameTypes
pub mod Protocol
pub mod Client
pub mod Map
pub mod Movement
pub mod RingBuffer
pub mod Server
pub mod Bot
pub mod Framing
mod Tests
