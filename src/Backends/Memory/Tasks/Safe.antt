-- ===== src/Backends/Memory/Tasks/Safe.antt =====
-- However the tasks interleave, the map of leases stays sound.
use rsdhcp.Backends.{Lease}
use rsdhcp.Backends.Memory.{offered_lease}
use rsdhcp.Backends.Memory.Database.{
  Memory, get_exprired_lease_ip_addr, remove_lease, store_at, store_lease,
}
use rsdhcp.Backends.Memory.Laws.{expired_in-some, lookup-All}
use rsdhcp.Backends.Memory.Maskless.{Maskless, options_of-Maskless, process_params-Lacking}
use rsdhcp.Backends.Memory.Params.{process_params}
use rsdhcp.Backends.Memory.Sound.{
  IsEntry, IsSound, remove_lease-IsSound, renewed-IsEntry, store_lease-IsSound,
}
use rsdhcp.Backends.Memory.Tasks.{
  Move, Reach, Step, System, Task, chosen, codes_of, decline, declined, discover, evict, evicting,
  exhausted, expired, free, here, idle_system, next, no_more, no_network, no_params, offer, pick,
  reboot, reboot_elsewhere, release, renew, scanning, store, storing, taken,
}
use rsdhcp.External.{Chrono, Ipnet}
use rsdhcp.Prelude.{
  Bool-cases, List, Option, arith, inl, inr, none, refl, some, ℕ, ◌<◌, ◌==◌, ◌≡◌, ◌≤◌,
}
use rsdhcp.Protocol.Option.{DhcpOption}
use rsdhcp.Protocol.Packet.{DhcpPacket}
use rsdhcp.Protocol.Value.{Ipv4Addr}

module _ ⦃ipnet : Ipnet⦄ ⦃chrono : Chrono⦄ where
  -- What a task holds is in the scope, and the lease that it is about to store is an entry.
  abbrev pub Held : Ipv4Addr → Ipv4Addr → Task → Type 0
  Held low high (scanning packet ip) = low ≤ ip
  Held low high (chosen packet ip) = (low ≤ ip) × (ip < high)
  Held low high (storing lease) = (ip : Ipv4Addr) × IsEntry low high (ip, lease)
  Held low high (evicting ip lease) = (a : Ipv4Addr) × IsEntry low high (a, lease)
  Held low high _ = Unit {0}

  -- The scope of a memory.
  abbrev SameScope : Memory → Memory → Type 0
  SameScope m m' = (m'.scope_start ≡ m.scope_start) × (m'.scope_end ≡ m.scope_end)

  store_at-scope :
      (o : Option ipnet.Ipv4Net) (lease : Lease) (m : Memory) → SameScope m (store_at o lease m)
  store_at-scope none lease m = (refl, refl)
  store_at-scope (some net) lease m = (refl, refl)

  store_lease-scope : (lease : Lease) (m : Memory) → SameScope m (store_lease lease m)
  unfolding store_lease
  store_lease-scope lease m = store_at-scope lease.yiaddr lease m

  remove_lease-scope : (ip : Ipv4Addr) (m : Memory) → SameScope m (remove_lease ip m)
  unfolding remove_lease
  remove_lease-scope ip m = (refl, refl)

  record Kept (m : Memory) (m' : Memory) (t' : Task) : Type 0 where
    sound : IsSound m'
    scope : SameScope m m'
    held : Held m.scope_start m.scope_end t'

  available_in_scope :
      (now : chrono.DateTime) (ip : Ipv4Addr) (m : Memory)
      → IsSound m
      → get_exprired_lease_ip_addr now m ≡ some ip
      → (m.scope_start ≤ ip) × (ip < m.scope_end)
  unfolding get_exprired_lease_ip_addr IsEntry
  available_in_scope now ip m s e =
      let (lease, found, old) = expired_in-some now m.database ip s.distinct e in
      let entry =
        lookup-All (IsEntry m.scope_start m.scope_end) ip m.database lease s.entries found in
      (entry.1, entry.2)

  offered-IsEntry :
      (now : chrono.DateTime) (packet : DhcpPacket) (ip : Ipv4Addr) (net : ipnet.Ipv4Net)
      (params : List DhcpOption) (m : Memory)
      → ipnet.with_netmask ip m.netmask_addr ≡ some net
      → process_params m (codes_of packet) ≡ some params
      → (m.scope_start ≤ ip) × (ip < m.scope_end)
      → IsEntry m.scope_start m.scope_end (ip, offered_lease now packet net params)
  unfolding IsEntry offered_lease Maskless
  offered-IsEntry now packet ip net params m k l inside = (
    (net, refl, ipnet.addr-with_netmask ip m.netmask_addr net k),
    inside.0,
    inside.1,
    options_of-Maskless params (process_params-Lacking m (codes_of packet) params l),
  )

  Move-Kept :
      {m m' : Memory} {t t' : Task}
      → Move m t m' t'
      → IsSound m
      → Held m.scope_start m.scope_end t
      → Kept m m' t'
  Move-Kept {m} (discover packet) s h = record {
    sound = s;
    scope = (refl, refl);
    held = omega arith;
  }
  Move-Kept {m} (taken packet ip lease below found) s h = record {
    sound = s;
    scope = (refl, refl);
    held = omega arith;
  }
  Move-Kept {m} (free packet ip below found) s h = record {
    sound = s;
    scope = (refl, refl);
    held = (h, below);
  }
  Move-Kept {m} (no_more packet ip past) s h = record { sound = s; scope = (refl, refl); held = tt }
  Move-Kept {m} (expired now packet ip e) s h = record {
    sound = s;
    scope = (refl, refl);
    held = available_in_scope now ip m s e;
  }
  Move-Kept {m} (exhausted now packet e) s h = record { sound = s; scope = (refl, refl); held = tt }
  Move-Kept {m} (offer now packet ip net params k l) s h = record {
    sound = s;
    scope = (refl, refl);
    held = (ip, offered-IsEntry now packet ip net params m k l h);
  }
  Move-Kept {m} (no_network packet ip e) s h = record { sound = s; scope = (refl, refl); held = tt }
  Move-Kept {m} (no_params packet ip e) s h = record { sound = s; scope = (refl, refl); held = tt }
  Move-Kept {m} (store lease) s (ip, entry) = record {
    sound = store_lease-IsSound lease ip m s entry;
    scope = store_lease-scope lease m;
    held = tt;
  }
  Move-Kept {m} (renew now ip lease e) s h = record {
    sound = s;
    scope = (refl, refl);
    held = (ip, renewed-IsEntry now ip lease m s e);
  }
  Move-Kept {m} (reboot now ip mask lease e k n) s h = record {
    sound = s;
    scope = (refl, refl);
    held = (ip, renewed-IsEntry now ip lease m s e);
  }
  Move-Kept {m} (reboot_elsewhere now ip mask lease e k n) s h = record {
    sound = s;
    scope = (refl, refl);
    held = (ip, renewed-IsEntry now ip lease m s e);
  }
  Move-Kept {m} (evict ip lease) s h = record {
    sound = remove_lease-IsSound ip m s;
    scope = remove_lease-scope ip m;
    held = h;
  }
  Move-Kept {m} (release ip) s h = record {
    sound = remove_lease-IsSound ip m s;
    scope = remove_lease-scope ip m;
    held = tt;
  }
  Move-Kept {m} (decline xid lease net e k) s h = record {
    sound = s;
    scope = (refl, refl);
    held = tt;
  }
  Move-Kept {m} (declined ip) s h = record {
    sound = remove_lease-IsSound ip m s;
    scope = remove_lease-scope ip m;
    held = tt;
  }

  record IsSafe (s : System) : Type 0 where
    sound : IsSound s.memory
    held : (i : ℕ) → Held s.memory.scope_start s.memory.scope_end (s.task i)

  Step-IsSafe : {s t : System} → Step s t → IsSafe s → IsSafe t
  Step-IsSafe {s} (pick i m' t' move) safe =
      let kept = Move-Kept move safe.sound (safe.held i) in
      record {
        sound = kept.sound;
        held = λ j. elim (Bool-cases (i == j)) [
          | inl e ↦ rw (e, kept.scope.0, kept.scope.1) kept.held
          | inr e ↦ rw (e, kept.scope.0, kept.scope.1) (safe.held j)
        ];
      }

  Reach-IsSafe : {s t : System} → Reach s t → IsSafe s → IsSafe t
  Reach-IsSafe here safe = safe
  Reach-IsSafe (next r step) safe = Step-IsSafe step (Reach-IsSafe r safe)

  -- However many handlers run at the same time, and in whatever order they take the lock, a sound
  -- store stays sound: an address has at most one lease, a lease stands under its own address, that address
  -- is in the scope, and the lease names no subnet mask.
  pub Reach-IsSound :
      (m : Memory) (s : System) → IsSound m → Reach (idle_system m) s → IsSound s.memory
  Reach-IsSound m s sound r = (Reach-IsSafe r (record { sound = sound; held = λ i. tt })).sound
