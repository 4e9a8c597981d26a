-- ===== src/Lib.antt =====
-- go-hashgrid: the event graph, its rounds and the peers of a node.
--
-- A node keeps a graph of events. Each node of the network has a column: the chain of its events,
-- each on top of the last one (its self parent) and linked to an event of another node (its other
-- parent). The node loop receives events from its peers, adds them to the graph, asks peers for
-- parents it does not have, and composes events of its own for the front round of a queue of
-- rounds. A search through the links decides which columns an event sees. The server keeps the
-- table of peers, and peers exchange messages in frames.
--
-- Files and the code they are about:
--
--   Common       lists, options, integers, byte strings, maps and results
--                of calls, which every part uses
--   Types        core/types.go: Address and Hash (Compare, SetBytes,
--                BytesToAddress, BytesToHash, Address.Hash), Big (Big,
--                BigToHash, BigToAddress), Text (Hex, HexToAddress,
--                IsHexAddress), Event (CopyEvent, Event.Hash) and RlpHash (rlpHash)
--   Jigsaw       core/jigsaw.go: State (Vertex, Column, JPGraph), Create
--                (NewJPGraph), Columns (AddNode), Validate (validateEvent),
--                AddEvent (AddEvent, RequestParentEvent), Compose
--                (ComposeEvent), Retrieve (RetrieveEvent); Seats carries
--                the lemmas on links between vertices
--   Round        core/round.go: Rounds (NewRound, addComer, RandParent),
--                Search (dfsVisit, JudgeSee, clearColorDFS),
--                Loop (RoundLoop), Monitor (MonitorLoop, WitnessFame),
--                Consensus (ConsensusShow)
--   P2p          p2p/server.go and the rest of p2p: Frame (ReadMsg, WriteMsg,
--                readInt32, putInt32), Server (run, HandleConn, FindPeer,
--                RequestEvent, BroadcastEvent),
--                Peer (handle), Message (Send, Discard), Handshake
--                (protoHandshake, HandleConn), Reader (readLoop, pingLoop,
--                run, runPeer), Lifecycle (Start, Stop, listenLoop,
--                AddPeer, RemovePeer); Delivery follows an event from one
--                node to another
--   Node         node/node.go: EventHandle
--   Hgrid        hgrid/main.go, and NewNode of node/node.go
--   System       a whole node: the loops of node/node.go, core/round.go and
--                p2p/peer.go as steps in any order, one call
--                after another
--   Examples     concrete runs, at which the theorems are applied
--
-- Pointers. A *Vertex is its number in the list `vertices` of the graph, which only grows, so
-- that a change through one pointer is seen through all. The integers that RoundID points to are
-- numbered likewise in `bigs`, since ComposeEvent writes through them. The front of the queue of
-- rounds is the head of a list. A Go map is an association list without double keys in the order
-- of insertion; where the source ranges over a map, a list in another order is another run.
--
-- Results. A call returns `done`, or ends in `panic` (a nil pointer or an index out of range),
-- `blocked` (it waits forever on a mutex that is held, a channel that was never made, or loops
-- that go on) or `out_of_fuel`. The field nc_held of a round says whether its mutex nc is left
-- locked. Locks that are taken and released within one call are not modelled: a call is one step.
-- The source starts each AddEvent in a goroutine of its own, and two of them can overlap; a run
-- of the whole node is one in which they do not, and Jigsaw/AddEvent/Race is about two that do.
--
-- Channels. A channel is the list of all values sent on it so far. Its capacity MaxChanItem is
-- 128; a send on a full channel waits for the receiver, and such a wait is not an outcome of the
-- model: a call is taken where its sends find room. Jigsaw/AddEvent/Sends and P2p/Reader/Ends
-- count what a call sends.
--
-- Parameters. A Hasher is the hash that sha3 over the RLP encoding gives for what Event.Hash
-- encodes, with its length of 32 bytes as the only assumption. An Rlp is what encoding a value
-- for a message gives, and a Codec what decoding a message leaves in its variable. A HexText is
-- the text conversion of core/common and a Keccak the hash of crypto/sha3. What json.Unmarshal
-- makes of the configuration, how sort.Sort orders addresses, random indices, the time and what a
-- socket delivers are arguments.
--
-- Bounds and fuel. The depth of the calls of dfsVisit is bounded by fuel; JudgeSee gives two more
-- than the number of vertices, which is enough since each deeper call turns a white vertex grey.
-- The walks of clearColorDFS and ConsensusShow down a column take their fuel as an argument. For
-- ConsensusShow one more than the number of vertices is enough, since a self parent is older than
-- its child; clearColorDFS looks self parents up by their hashes, and any ranking of the vertices
-- that these go down in bounds its fuel. readLoop takes at most one turn for each byte. Sizes and
-- types of messages are uint32, and the length of a frame wraps where the source's does.
--
-- Not modelled. The packages rlp, crypto, log, core/common, core/hexutil and core/types are
-- copies of go-ethereum's and log15. Sockets, goroutines' scheduling, timers and log output are
-- left out: what reaches a loop is a sequence of messages.
pub mod Common
pub mod Types
pub mod Jigsaw
pub mod Round
pub mod P2p
pub mod Node
pub mod Hgrid
pub mod System
pub mod Examples
