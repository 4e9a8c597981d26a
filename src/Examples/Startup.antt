-- ===== src/Examples/Startup.antt =====
-- A configuration, and a node that starts from it.
use go_hashgrid.Common.{◌≡◌, refl, ◌⊎◌, inr, true, none, some, [], ◌∷◌, ◌++◌, pos, done, panic}
use go_hashgrid.P2p.Lifecycle.{
  GlobalConfig, Host, new_host, already_running, start, stop, start_call, stop_call, apply_all,
}
use go_hashgrid.P2p.Lifecycle.Laws.{IsSound, start-IsSound, apply_all-IsSound, start-stop}
use go_hashgrid.Node.{NodeLoop}
use go_hashgrid.Hgrid.{Node, Unmarshal, initialize, main}
use go_hashgrid.Hgrid.Laws.{Fresh, main-Fresh}
use go_hashgrid.Examples.Values.{me}

abbrev pub config : GlobalConfig
config = record {
  inter_milli = pos 500;
  addr = [];
  coinbase = me;
  peers = (49 ∷ []) ∷ (50 ∷ []) ∷ [];
}

abbrev pub unmarshal : Unmarshal
unmarshal text gc = (config, true)

main-Fresh_example :
    (((initialize unmarshal (some [])).peers ≡ []) × (main unmarshal (some []) none ≡ panic))
    ⊎ ((nd : Node) × (nl : NodeLoop) × (main unmarshal (some []) none ≡ done (nd, nl))
        × Fresh (initialize unmarshal (some [])) nd nl)
main-Fresh_example = main-Fresh unmarshal (some []) none

new_host-IsSound : IsSound new_host
new_host-IsSound = inr (refl, refl)

apply_all-IsSound_example :
    (h : Host) × (apply_all (start_call config none ∷ stop_call ∷ stop_call ∷ []) new_host ≡ done h)
    × IsSound h
apply_all-IsSound_example =
    apply_all-IsSound (start_call config none ∷ stop_call ∷ stop_call ∷ []) new_host
      new_host-IsSound

-- A configuration with an address to listen on.
abbrev open_config : GlobalConfig
open_config = record config { addr = 58 ∷ 57 ∷ [] }

abbrev running_host : Host
running_host = (start open_config (some (58 ∷ [])) new_host).1

host_runs : running_host.running ≡ true
unfolding start
host_runs = refl

start-stop_example :
    (h : Host) × (start open_config (some (58 ∷ [])) running_host
      ≡ (some already_running, running_host))
    × (stop running_host ≡ done h)
    × (h.loops ≡ 0)
    × ((start open_config (some (58 ∷ [])) h).0 ≡ none)
    × ((start open_config (some (58 ∷ [])) h).1.running ≡ true)
    × ((start open_config (some (58 ∷ [])) h).1.id ≡ me)
    × ((start open_config (some (58 ∷ [])) h).1.static ≡ h.static ++ config.peers)
start-stop_example =
    start-stop open_config (58 ∷ []) running_host
      (start-IsSound open_config (some (58 ∷ [])) new_host new_host-IsSound) host_runs
