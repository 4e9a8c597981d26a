-- ===== src/Round/Parents.antt =====
-- What `RandParent` offers, and when `addComer` lets go of its mutex.
use go_hashgrid.Common.{
  ℕ, suc, ◌≡◌, refl, ◌≢◌, ◌⊎◌, inl, inr, Bool, true, false, not, ◌||◌, none, some, List, [], ◌∷◌,
  ◌++◌, arith, if◌then◌else◌, Bool-cases, done, blocked,
}
use go_hashgrid.Types.Address.{Address, zero_address}
use go_hashgrid.Types.Address
use go_hashgrid.Types.Event.{RequestArg}
use go_hashgrid.Jigsaw.State.{Round}
use go_hashgrid.Round.Rounds.{has_comer, add_comer, empty_arg, same_address, rand_loop, rand_parent}

-- Some comer comes from another node than `except`.
abbrev pub has_other : Address → List RequestArg → Bool
has_other except [] = false
has_other except (arg ∷ args) = not (same_address arg.target_addr except) || has_other except args

-- No comer's address is the zero address.
abbrev pub AllNamed : List RequestArg → Type 0
AllNamed [] = Unit
AllNamed (arg ∷ args) = (same_address arg.target_addr zero_address ≡ false) × AllNamed args

rand_loop-named :
    (except : Address) (to i : ℕ) (ret : RequestArg) (args : List RequestArg)
    → AllNamed args
    → (has_other except args ≡ true) ⊎ (same_address ret.target_addr zero_address ≡ false)
    → same_address (rand_loop except to i ret args).0.target_addr zero_address ≡ false
unfolding rand_loop
rand_loop-named except to i ret [] n h = ground arith
rand_loop-named except to i ret (arg ∷ args) n h =
    ground (
      arith,
      rand_loop-named except to (suc i) arg args,
      rand_loop-named except to (suc i) ret args,
    )

rand_loop-same :
    (except : Address) (to i : ℕ) (ret : RequestArg) (args : List RequestArg)
    → has_other except args ≡ false
    → rand_loop except to i ret args ≡ (ret, args)
unfolding rand_loop
rand_loop-same except to i ret [] h = refl
rand_loop-same except to i ret (arg ∷ args) h =
    ground (arith, rand_loop-same except to (suc i) ret args)

-- For a round with comers, none of them of the zero address, `RandParent` never offers one of them:
-- it returns nil as soon as some comer is of another node, whatever the random index, and
-- otherwise the request of all zeros.
pub rand_parent_lem :
    (except : Address) (to : ℕ) (rd : Round)
    → rd.nc_held ≡ false
    → rd.new_comer ≢ []
    → AllNamed rd.new_comer
    → (rd' : Round) × (rand_parent except to rd
        ≡ done ((if has_other except rd.new_comer then none else some empty_arg), rd'))
unfolding rand_parent Address.compare
rand_parent_lem except to rd free some_comer named = (
  record rd { new_comer = (rand_loop except to 0 empty_arg rd.new_comer).1 },
  ground (
    arith,
    rand_loop-named except to 0 empty_arg rd.new_comer named,
    rand_loop-same except to 0 empty_arg rd.new_comer,
  ),
)

-- `addComer` on a free round appends a request of a new hash and leaves the round free. On a hash
-- that the round has it leaves the mutex locked: every later `addComer` and every later
-- `RandParent` on that round waits forever.
pub add_comer_lem :
    (rqa : RequestArg) (rd : Round)
    → rd.nc_held ≡ false
    → (rd' : Round) × (add_comer rqa rd ≡ done rd')
      × (has_comer rqa.target_hash rd.new_comer ≡ false
          → (rd'.nc_held ≡ false) × (rd'.new_comer ≡ rd.new_comer ++ rqa ∷ []))
      × (has_comer rqa.target_hash rd.new_comer ≡ true
          → ((q : RequestArg) → add_comer q rd' ≡ blocked)
            × ((except : Address) (to : ℕ) → rand_parent except to rd' ≡ blocked))
unfolding add_comer rand_parent
add_comer_lem rqa rd free = elim (Bool-cases (has_comer rqa.target_hash rd.new_comer)) [
  | inl old ↦
      (record rd { nc_held = true }, ground arith, λ new. cc, λ _. (λ q. refl, λ except to. refl))
  | inr new ↦ (
    record rd { new_comer = rd.new_comer ++ rqa ∷ [] },
    ground arith,
    λ _. (free, refl),
    λ old. cc,
  )
]
