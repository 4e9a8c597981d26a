-- ===== src/Examples/Keys.antt =====
-- Addresses, hashes, columns and received events.
use go_hashgrid.Common.{
  ◌≡◌, refl, ◌↔◌, ◌⊎◌, true, false, none, some, [], ◌∷◌, arith, length, drop, replicate, bytes_eq,
  lookup,
}
use go_hashgrid.Types.Address.{Address}
use go_hashgrid.Types.Hash.{Hash, bytes_to_hash, zero_hash}
use go_hashgrid.Types.Event.{Event, preimage, event_hash, transaction}
use go_hashgrid.Jigsaw.State.{JpGraph, Column}
use go_hashgrid.Common.{done, Bytes}
use go_hashgrid.Types.Text.{
  Keccak, HexText, hex_decode, address_hex, is_hex_address, hex_to_address,
}
use go_hashgrid.Types.Text.Laws.{hex_to_address-address_hex}
use go_hashgrid.Jigsaw.Columns.{add_node}
use go_hashgrid.Jigsaw.Columns.Numbering.{IsNumbered, add_node-IsNumbered}
use go_hashgrid.Jigsaw.Validate.{
  validate_event, stripped, validate_event_lem, validate_event-unprotected,
}
use go_hashgrid.Jigsaw.Create.{new_jp_graph, new_jp_graph_lem}
use go_hashgrid.Examples.Values.{me, you, sample_hasher, sample_event}

abbrev high : Hash
high = replicate 32 2

-- A received event with its own hash and no transactions.
abbrev honest : Event
honest =
    let e = record (sample_event you 5 me 4) { self_hash = zero_hash } in
    record e { self_hash = sample_hasher.rlp_hash (preimage e) }

validate_event_example :
    (validate_event sample_hasher honest ≡ true)
    ↔ (event_hash sample_hasher (stripped honest) ≡ honest.self_hash)
unfolding bytes_to_hash
validate_event_example = validate_event_lem sample_hasher honest refl

validate_event-unprotected_example :
    validate_event sample_hasher
      (record honest { trans = transaction ∷ []; other_part_a = you; round_id = some 3 })
    ≡ validate_event sample_hasher honest
validate_event-unprotected_example =
    validate_event-unprotected sample_hasher honest (transaction ∷ []) you (some 3)

fresh-IsNumbered : IsNumbered (new_jp_graph me 2)
fresh-IsNumbered = (new_jp_graph_lem me 2).0

abbrev both : JpGraph
both = add_node you (new_jp_graph me 2)

add_node-IsNumbered_example :
    IsNumbered both
    × (((c : Column) × (lookup you (new_jp_graph me 2).graph ≡ some c) × (both ≡ new_jp_graph me 2))
        ⊎ (lookup you (new_jp_graph me 2).graph ≡ none)
          × (lookup you both.graph
              ≡ some (record {
                hash_chain = [];
                ver_top = none;
                seq_num = length (new_jp_graph me 2).graph;
              })))
    × ((b : Address)
        → bytes_eq you b ≡ false
        → lookup b both.graph ≡ lookup b (new_jp_graph me 2).graph)
add_node-IsNumbered_example = add_node-IsNumbered you (new_jp_graph me 2) fresh-IsNumbered

my_column :
    lookup me (new_jp_graph me 2).graph
    ≡ some (record { hash_chain = []; ver_top = none; seq_num = 0 })
my_column = (new_jp_graph_lem me 2).2

abbrev keccak : Keccak
keccak = record { keccak = λ b. replicate 32 200; length-keccak = λ b. refl }

-- The text after the first two bytes, read as far as it can be.
abbrev hex_text : HexText
hex_text = record {
  from_hex = λ s. elim (hex_decode (drop 2 s)) [ none ↦ [] | some b ↦ b ];
  has_hex_prefix = λ s. true;
  is_hex = λ s. elim (hex_decode s) [ none ↦ false | some b ↦ true ];
  from_hex-prefixed = λ s b e. rw e;
  has_hex_prefix-prefixed = λ s. refl;
  is_hex_lem = λ s b e. rw e;
}

hex_to_address-address_hex_example :
    (s : Bytes) × (address_hex keccak you ≡ done s)
    × (length s ≡ 42)
    × (is_hex_address hex_text s ≡ true)
    × (hex_to_address hex_text s ≡ you)
hex_to_address-address_hex_example =
    hex_to_address-address_hex keccak hex_text you refl (omega arith)
