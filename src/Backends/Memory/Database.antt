-- ===== src/Backends/Memory/Database.antt =====
-- The state of rsdhcp/src/backends/memory.rs and the methods of its `Database`.
-- The map is an association list; the list's order stands for the order in which it is iterated.
use rsdhcp.Backends.{Lease, is_current}
use rsdhcp.External.{Chrono, Ipnet}
use rsdhcp.Prelude.{
  List, Option, [], if◌then◌else◌, none, not, some, suc, zero, ℕ, ◌+◌, ◌-◌, ◌==◌, ◌∷◌,
}
use rsdhcp.Protocol.Packet.{is_some}
use rsdhcp.Protocol.Value.{Ipv4Addr}

-- `Memory`: the source has the two ends of the scope in one array, and `subnet_mask` and
-- `domain_name` for `netmask_addr` and `domain`.
pub record Memory ⦃ipnet : Ipnet⦄ ⦃chrono : Chrono⦄ : Type 0 where
  pub scope_start : Ipv4Addr
  pub scope_end : Ipv4Addr
  pub gateway : Ipv4Addr
  pub netmask_addr : Ipv4Addr
  pub domain : List ℕ
  pub dns_servers : List Ipv4Addr
  pub dns_search : List (List ℕ)
  pub database : List (Ipv4Addr × Lease)

module _ ⦃ipnet : Ipnet⦄ ⦃chrono : Chrono⦄ where
  -- `db.get(ip)` and `contains_key`.
  unfoldable pub lookup : Ipv4Addr → List (Ipv4Addr × Lease) → Option Lease
  lookup ip [] = none
  lookup ip ((k, lease) ∷ db) = if k == ip then some lease else lookup ip db

  unfoldable pub remove : Ipv4Addr → List (Ipv4Addr × Lease) → List (Ipv4Addr × Lease)
  remove ip [] = []
  remove ip ((k, lease) ∷ db) =
      let rest = remove ip db in if k == ip then rest else (k, lease) ∷ rest

  unfoldable pub insert : Ipv4Addr → Lease → List (Ipv4Addr × Lease) → List (Ipv4Addr × Lease)
  unfolding remove
  insert ip lease db = (ip, lease) ∷ remove ip db

  -- The `for` loop of `get_unused_ip_addr`, over `rounds` addresses from `ip` on.
  unfoldable pub unused_loop : ℕ → Ipv4Addr → List (Ipv4Addr × Lease) → Option Ipv4Addr
  unused_loop zero ip db = none
  unused_loop (suc rounds) ip db =
      let next = unused_loop rounds (ip + 1) db in if is_some (lookup ip db) then next else some ip

  -- The range is half open: the end of the scope is not in it.
  unfoldable pub get_unused_ip_addr : Memory → Option Ipv4Addr
  unfolding unused_loop lookup
  get_unused_ip_addr m = unused_loop (m.scope_end - m.scope_start) m.scope_start m.database

  unfoldable pub expired_in : chrono.DateTime → List (Ipv4Addr × Lease) → Option Ipv4Addr
  unfolding is_current
  expired_in now [] = none
  expired_in now ((ip, lease) ∷ db) =
      if not (is_current now lease) then some ip else expired_in now db

  unfoldable pub get_exprired_lease_ip_addr : chrono.DateTime → Memory → Option Ipv4Addr
  unfolding expired_in
  get_exprired_lease_ip_addr now m = expired_in now m.database

  unfoldable pub xid_in : ℕ → List (Ipv4Addr × Lease) → Option Lease
  xid_in xid [] = none
  xid_in xid ((ip, lease) ∷ db) = if lease.xid == xid then some lease else xid_in xid db

  unfoldable pub get_lease_for_xid : ℕ → Memory → Option Lease
  unfolding xid_in
  get_lease_for_xid xid m = xid_in xid m.database

  unfoldable pub get_lease_for_ip : Ipv4Addr → Memory → Option Lease
  unfolding lookup
  get_lease_for_ip ip m = lookup ip m.database

  -- A lease with no address is not stored.
  abbrev pub store_at : Option ipnet.Ipv4Net → Lease → Memory → Memory
  store_at none lease m = m
  store_at (some net) lease m = record m { database = insert (ipnet.addr net) lease m.database }

  unfoldable pub store_lease : Lease → Memory → Memory
  unfolding insert
  store_lease lease m = store_at lease.yiaddr lease m

  unfoldable pub remove_lease : Ipv4Addr → Memory → Memory
  unfolding remove
  remove_lease ip m = record m { database = remove ip m.database }
