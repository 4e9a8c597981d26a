-- ===== src/Jigsaw/State.antt =====
-- The data of core/jigsaw.go and core/round.go: vertices, columns, rounds and the graph. Vertices
-- and the integers behind `RoundID` live on a heap inside the graph's record; a pointer to one is
-- its index there, and nil is `none`.
use go_hashgrid.Common.{
  ℕ, zero, suc, Bool, Option, none, some, List, [], ◌∷◌, get_elem?, ℤ, Outcome, done, panic,
}
use go_hashgrid.Types.Address.{Address}
use go_hashgrid.Types.Hash.{Hash}
use go_hashgrid.Types.Event.{Event, RequestArg, Transaction}

-- The kinds of an event, the values of `Vertex.witness`.
abbrev pub normal : ℕ
normal = 1

abbrev pub witness_remote : ℕ
witness_remote = 2

abbrev pub witness_local : ℕ
witness_local = 3

abbrev pub famous_witness : ℕ
famous_witness = 4

abbrev pub max_node_count : ℕ
max_node_count = 128

abbrev pub max_chan_item : ℕ
max_chan_item = 128

abbrev pub max_color_cluster : ℕ
max_color_cluster = 4

abbrev pub white : ℕ
white = 0

abbrev pub grey : ℕ
grey = 1

abbrev pub black : ℕ
black = 2

-- `*Vertex`
abbrev pub VertexRef : Type 0
VertexRef = Option ℕ

pub record Vertex : Type 0 where
  pub event : Event
  pub color : List ℕ
  pub witness : ℕ
  pub another_pt : VertexRef
  pub self_pt : VertexRef
  pub seq_num : ℕ

pub record Column : Type 0 where
  pub hash_chain : List (Hash × ℕ)
  pub ver_top : VertexRef
  pub seq_num : ℕ

-- `nc_held` says that the mutex `nc` is left locked by a call that has returned.
pub record Round : Type 0 where
  pub nc_held : Bool
  pub lost_dict : List (Hash × List ℕ)
  pub new_comer : List RequestArg
  pub best_vertex : VertexRef
  pub witnesses : List VertexRef
  pub broadness : ℕ
  pub index : ℕ
  pub votes : List (List ℕ)
  pub strongsee : List (List Bool)

-- `JPGraph` with its `RoundManager`. A channel is the list of all values sent on it so far, oldest first,
-- those that have been received included;
-- `queue` is the list of rounds from its front.
pub record JpGraph : Type 0 where
  pub graph : List (Address × Column)
  pub super_majority : ℕ
  pub vertices : List Vertex
  pub bigs : List ℤ
  pub witness_l : List Event
  pub witness_r : List Event
  pub event_norm : List Event
  pub trans_un_handled : List Transaction
  pub coinbase : Address
  pub broadness : ℕ
  pub request_chan : List RequestArg
  pub self_event_created : List ℕ
  pub round_trigger : List ℕ
  pub queue : List Round
  pub current_idx : ℕ
  pub monitor_starter : VertexRef
  pub consensus_trigger : List ℕ

-- `v.f = x` through a pointer to a vertex.
unfoldable pub update_vertex : ℕ → (Vertex → Vertex) → List Vertex → List Vertex
update_vertex p f [] = []
update_vertex zero f (v ∷ vs) = f v ∷ vs
update_vertex (suc p) f (v ∷ vs) = v ∷ update_vertex p f vs

-- The same through a pointer to a round of the queue.
unfoldable pub update_round : ℕ → (Round → Round) → List Round → List Round
update_round p f [] = []
update_round zero f (r ∷ rs) = f r ∷ rs
update_round (suc p) f (r ∷ rs) = r ∷ update_round p f rs

-- The integer behind a pointer: a nil pointer is a panic.
unfoldable pub deref_big : List ℤ → Option ℕ → Outcome ℤ
deref_big bigs none = panic
deref_big bigs (some r) = elim (get_elem? bigs r) [ none ↦ panic | some n ↦ done n ]

unfoldable pub deref_vertex : List Vertex → ℕ → Outcome Vertex
deref_vertex vs p = elim (get_elem? vs p) [ none ↦ panic | some v ↦ done v ]

-- `CurrentRound`
abbrev pub current_round : JpGraph → ℕ
current_round jp = jp.current_idx

-- `TransUnHandled`
abbrev pub trans_un_handled : JpGraph → List Transaction
trans_un_handled jp = jp.trans_un_handled
