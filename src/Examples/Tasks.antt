-- ===== src/Examples/Tasks.antt =====
-- Handlers of the memory store that run at the same time.
use rsdhcp.Backends.{Lease, granted}
use rsdhcp.Backends.Memory.{offered_lease}
use rsdhcp.Backends.Memory.Database.{Memory, get_unused_ip_addr, remove_lease}
use rsdhcp.Backends.Memory.Laws.{Distinct}
use rsdhcp.Backends.Memory.Params.{process_params}
use rsdhcp.Backends.Memory.Sound.{IsSound}
use rsdhcp.Backends.Memory.Tasks.{
  Reach, System, at_index, finished, here, idle, idle_system, next, pick, release,
}
use rsdhcp.Backends.Memory.Tasks.Race.{discover_race}
use rsdhcp.Backends.Memory.Tasks.Safe.{Reach-IsSound}
use rsdhcp.Examples.Setting.{clock, cursor, discover_packet, networks, server_ip, store_with}
use rsdhcp.Prelude.{[], refl, ◌∷◌, ◌≡◌}
use rsdhcp.Protocol.Option.{code, router}
use rsdhcp.Protocol.Options.{get_option}

abbrev empty_memory : Memory
empty_memory = store_with []

abbrev first_lease : Lease
first_lease =
    offered_lease 100 discover_packet (0x0a00_0002, 0xffff_ff00) (router (server_ip ∷ []) ∷ [])

empty-IsSound : IsSound empty_memory
unfolding Distinct
empty-IsSound = record { distinct = tt; entries = tt }

Reach-IsSound_example : IsSound (remove_lease 0x0a00_0002 empty_memory)
Reach-IsSound_example =
    Reach-IsSound empty_memory
      (record {
        memory = remove_lease 0x0a00_0002 empty_memory;
        task = at_index (λ i. idle) 3 idle;
      })
      empty-IsSound
      (next here (pick 3 (remove_lease 0x0a00_0002 empty_memory) idle (release 0x0a00_0002)))

discover_race_example :
    (s : System) × Reach (idle_system empty_memory) s
    × (s.task 0 ≡ finished (granted first_lease))
    × (s.task 1 ≡ finished (granted first_lease))
    × (first_lease.yiaddr ≡ first_lease.yiaddr)
unfolding get_unused_ip_addr process_params get_option code rsdhcp.Backends.Memory.requested_params
discover_race_example =
    discover_race 100 discover_packet discover_packet empty_memory 0x0a00_0002
      (0x0a00_0002, 0xffff_ff00) (router (server_ip ∷ []) ∷ []) (router (server_ip ∷ []) ∷ []) refl
      refl refl refl
