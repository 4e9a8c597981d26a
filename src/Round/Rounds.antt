-- ===== src/Round/Rounds.antt =====
-- `NewRound`, `addComer` and `RandParent` of core/round.go.
use go_hashgrid.Common.{
  ℕ, suc, ◌+◌, Bool, true, false, not, ◌&&◌, ◌||◌, Option, none, some, List, [], ◌∷◌, ◌++◌, ◌==◌,
  if◌then◌else◌, length, replicate, pos, eq_ℤ, Outcome, done, blocked,
}
use go_hashgrid.Types.Address.{Address, zero_address}
use go_hashgrid.Types.Address
use go_hashgrid.Types.Hash.{Hash, zero_hash}
use go_hashgrid.Types.Hash
use go_hashgrid.Types.Event.{RequestArg}
use go_hashgrid.Jigsaw.State.{Round, max_node_count}

-- `NewRound(l, idx)`: the two tables are l × l, and there are `MaxNodeCount` slots for witnesses.
unfoldable pub new_round : ℕ → ℕ → Round
new_round l idx = record {
  nc_held = false;
  lost_dict = [];
  new_comer = [];
  best_vertex = none;
  witnesses = replicate max_node_count none;
  broadness = l;
  index = idx;
  votes = replicate l (replicate l 0);
  strongsee = replicate l (replicate l false);
}

-- The loop of `addComer`: some comer has the hash.
unfoldable pub has_comer : Hash → List RequestArg → Bool
has_comer h [] = false
has_comer h (n ∷ ns) = eq_ℤ (Hash.compare n.target_hash h) (pos 0) || has_comer h ns

-- The return inside the loop leaves the mutex locked.
unfoldable pub add_comer : RequestArg → Round → Outcome Round
unfolding has_comer
add_comer rqa rd =
    if rd.nc_held
    then blocked
    else if has_comer rqa.target_hash rd.new_comer
    then done (record rd { nc_held = true })
    else done (record rd { new_comer = rd.new_comer ++ rqa ∷ [] })

-- `&RequestArg{}`
abbrev pub empty_arg : RequestArg
empty_arg = record { target_hash = zero_hash; target_addr = zero_address; refered = 0 }

abbrev pub same_address : Address → Address → Bool
same_address a b = eq_ℤ (Address.compare a b) (pos 0)

-- The loop of `RandParent` from index i on, with the comers as it leaves them: `to` is the random
-- index, and the comer there has its count raised if it is taken.
unfoldable pub rand_loop :
    Address → ℕ → ℕ → RequestArg → List RequestArg → RequestArg × List RequestArg
rand_loop except to i ret [] = (ret, [])
rand_loop except to i ret (arg ∷ args) =
    let other = not (same_address arg.target_addr except) in
    let taken : RequestArg = record arg { refered = arg.refered + 1 } in
    let rest = rand_loop except to (suc i) (if other then arg else ret) args in
    if (i == to) && other then (taken, taken ∷ args) else (rest.0, arg ∷ rest.1)

-- `to` is the result of `rand.Intn(mlen)`.
unfoldable pub rand_parent : Address → ℕ → Round → Outcome (Option RequestArg × Round)
unfolding rand_loop
rand_parent except to rd =
    if rd.nc_held
    then blocked
    else if length rd.new_comer == 0
    then done (none, rd)
    else (let (ret, comers) = rand_loop except to 0 empty_arg rd.new_comer in
        done (
          (if same_address ret.target_addr zero_address then some ret else none),
          record rd { new_comer = comers },
        ))
