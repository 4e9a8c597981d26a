-- ===== src/Examples/Values.antt =====
-- Nodes, a hash function, events and graphs to run the model on.
use go_hashgrid.Common.{
  Bytes, ℕ, some, [], ◌∷◌, ◌++◌, length, replicate, ℤ, pos, negsuc, bytes_eq, done, panic, blocked,
  out_of_fuel, lookup, insert, delete,
}
use go_hashgrid.Types.Address.{Address}
use go_hashgrid.Types.Hash.{Hash, zero_hash, bytes_to_hash}
use go_hashgrid.Types.Laws.{bytes_to_hash_lem}
use go_hashgrid.Types.Event.{Event, Hasher, Preimage}
use go_hashgrid.Jigsaw.State.{JpGraph, update_round, update_vertex}
use go_hashgrid.Jigsaw.Validate.{validate_event}
use go_hashgrid.Types.Address
use go_hashgrid.Types.Hash
use go_hashgrid.Jigsaw.Compose.{compose_event}
use go_hashgrid.Jigsaw.Retrieve.{retrieve_event}
use go_hashgrid.Jigsaw.AddEvent.{add_event}
use go_hashgrid.Types.Text.{Keccak}
use go_hashgrid.Types.RlpHash.{rlp_hasher}
use go_hashgrid.Jigsaw.Create.{new_jp_graph}

abbrev pub me : Address
me = replicate 20 1

abbrev pub you : Address
you = replicate 20 2

abbrev pub stamp : ℤ → ℕ
stamp (pos n) = n
stamp (negsuc n) = n

-- In place of Keccak-256, the last 32 bytes.
abbrev pub cropped : Keccak
cropped = record { keccak = bytes_to_hash; length-keccak = λ b. (bytes_to_hash_lem b).0 }

-- It tells apart what is made at different times, or with another number of transactions.
abbrev sample_encode : Preimage → Bytes
sample_encode p = length p.trans ∷ stamp p.time_stamp ∷ []

abbrev pub sample_hasher : Hasher
sample_hasher = rlp_hasher cropped sample_encode

-- An event of `author` at time n, with the other parent made by `other` at time m.
abbrev pub sample_event : Address → ℕ → Address → ℕ → Event
sample_event author n other m = record {
  time_stamp = pos n;
  trans = [];
  self_part = zero_hash;
  self_hash = replicate 31 0 ++ n ∷ [];
  self_sig = record { addr = author };
  other_part_h = replicate 31 0 ++ m ∷ [];
  other_part_a = other;
  round_id = some 0;
}

-- A new graph of this node, where the round number of the sample events is 0.
abbrev pub start : JpGraph
start = record (new_jp_graph me 2) { bigs = pos 0 ∷ [] }

-- The graph after an event, unchanged where `AddEvent` does not return.
abbrev pub after : Event → ℕ → JpGraph → JpGraph
after e ty jp = elim (add_event sample_hasher e ty jp) [
  | done (b, jp') ↦ jp'
  | panic ↦ jp
  | blocked ↦ jp
  | out_of_fuel ↦ jp
]

-- What a run of the graph's operations computes through.
unfoldable pub opened : ℕ
unfolding add_event new_jp_graph compose_event retrieve_event lookup insert delete bytes_eq
    Address.compare Hash.compare bytes_to_hash update_round update_vertex validate_event
opened = 0
