-- ===== src/Backends/Memory/Tasks.antt =====
-- The handlers of rsdhcp/src/backends/memory.rs as tasks that run at the same time: each time that
-- a handler holds the lock of the map is one step, and between two steps other tasks may run.
pub mod Safe
pub mod Race
pub mod Alone
use rsdhcp.Backends.{BackendResult, Lease, granted, no_lease_available, panicked, refused}
use rsdhcp.Backends.Memory.{lease_mask, offered_lease, requested_params}
use rsdhcp.Backends.Memory.Database.{
  Memory, get_exprired_lease_ip_addr, get_lease_for_ip, get_lease_for_xid, remove_lease,
  store_lease,
}
use rsdhcp.Backends.Memory.Params.{process_params}
use rsdhcp.External.{Chrono, Ipnet}
use rsdhcp.Prelude.{List, if◌then◌else◌, none, some, ℕ, ◌+◌, ◌<◌, ◌==◌, ◌≡◌, ◌≢◌, ◌≤◌}
use rsdhcp.Protocol.Option.{DhcpOption, parameter_list_code}
use rsdhcp.Protocol.Options.{get_option}
use rsdhcp.Protocol.Packet.{DhcpPacket}
use rsdhcp.Protocol.Value.{Ipv4Addr}

module _ ⦃ipnet : Ipnet⦄ ⦃chrono : Chrono⦄ where
  -- Where a task stands, with what it holds in its local variables.
  pub data Task : Type 0 where
    idle : Task
    scanning : (packet : DhcpPacket) (ip : Ipv4Addr) → Task
    scanned : (packet : DhcpPacket) → Task
    chosen : (packet : DhcpPacket) (ip : Ipv4Addr) → Task
    storing : (lease : Lease) → Task
    evicting : (ip : Ipv4Addr) (lease : Lease) → Task
    declining : (ip : Ipv4Addr) → Task
    finished : (result : BackendResult Lease) → Task

  abbrev pub codes_of : DhcpPacket → List ℕ
  codes_of packet = requested_params (get_option packet.options parameter_list_code)

  -- One step of a task, with the memory before and after it. The time is that of the step.
  pub data Move (m : Memory) : Task → Memory → Task → Type 0 where
    -- `handle_discover`: the loop of `get_unused_ip_addr` takes the lock for each address
    discover : (packet : DhcpPacket) → Move m idle m (scanning packet m.scope_start)
    taken :
        (packet : DhcpPacket) (ip : Ipv4Addr) (lease : Lease)
        → ip < m.scope_end
        → get_lease_for_ip ip m ≡ some lease
        → Move m (scanning packet ip) m (scanning packet (ip + 1))
    free :
        (packet : DhcpPacket) (ip : Ipv4Addr)
        → ip < m.scope_end
        → get_lease_for_ip ip m ≡ none
        → Move m (scanning packet ip) m (chosen packet ip)
    no_more :
        (packet : DhcpPacket) (ip : Ipv4Addr)
        → m.scope_end ≤ ip
        → Move m (scanning packet ip) m (scanned packet)
    expired :
        (now : chrono.DateTime) (packet : DhcpPacket) (ip : Ipv4Addr)
        → get_exprired_lease_ip_addr now m ≡ some ip
        → Move m (scanned packet) m (chosen packet ip)
    exhausted :
        (now : chrono.DateTime) (packet : DhcpPacket)
        → get_exprired_lease_ip_addr now m ≡ none
        → Move m (scanned packet) m (finished (refused no_lease_available))
    offer :
        (now : chrono.DateTime) (packet : DhcpPacket) (ip : Ipv4Addr) (net : ipnet.Ipv4Net)
        (params : List DhcpOption)
        → ipnet.with_netmask ip m.netmask_addr ≡ some net
        → process_params m (codes_of packet) ≡ some params
        → Move m (chosen packet ip) m (storing (offered_lease now packet net params))
    no_network :
        (packet : DhcpPacket) (ip : Ipv4Addr)
        → ipnet.with_netmask ip m.netmask_addr ≡ none
        → Move m (chosen packet ip) m (finished panicked)
    no_params :
        (packet : DhcpPacket) (ip : Ipv4Addr)
        → process_params m (codes_of packet) ≡ none
        → Move m (chosen packet ip) m (finished panicked)
    store :
        (lease : Lease) → Move m (storing lease) (store_lease lease m) (finished (granted lease))
    -- `handle_request_renewing`, with the address that the client means
    renew :
        (now : chrono.DateTime) (ip : Ipv4Addr) (lease : Lease)
        → get_lease_for_ip ip m ≡ some lease
        → Move m idle m (storing (record lease { lease_time = now }))
    -- `handle_request_init_reboot`, for a client of the lease's network and of another
    reboot :
        (now : chrono.DateTime) (ip mask : Ipv4Addr) (lease : Lease)
        → get_lease_for_ip ip m ≡ some lease
        → lease_mask lease.options ≡ some mask
        → mask ≢ 0
        → Move m idle m (storing (record lease { lease_time = now }))
    reboot_elsewhere :
        (now : chrono.DateTime) (ip mask : Ipv4Addr) (lease : Lease)
        → get_lease_for_ip ip m ≡ some lease
        → lease_mask lease.options ≡ some mask
        → mask ≢ 0
        → Move m idle m (evicting ip (record lease { lease_time = now }))
    evict :
        (ip : Ipv4Addr) (lease : Lease)
        → Move m (evicting ip lease) (remove_lease ip m) (storing lease)
    -- `handle_release` and `handle_decline`
    release : (ip : Ipv4Addr) → Move m idle (remove_lease ip m) idle
    decline :
        (xid : ℕ) (lease : Lease) (net : ipnet.Ipv4Net)
        → get_lease_for_xid xid m ≡ some lease
        → lease.yiaddr ≡ some net
        → Move m idle m (declining (ipnet.addr net))
    declined : (ip : Ipv4Addr) → Move m (declining ip) (remove_lease ip m) idle

  -- The memory and the tasks that share it.
  pub record System : Type 0 where
    pub memory : Memory
    pub task : ℕ → Task

  abbrev pub at_index : (ℕ → Task) → ℕ → Task → ℕ → Task
  at_index tasks i t j = if i == j then t else tasks j

  -- A task that is picked makes one step.
  pub data Step (s : System) : System → Type 0 where
    pick :
        (i : ℕ) (m' : Memory) (t' : Task)
        → Move s.memory (s.task i) m' t'
        → Step s (record { memory = m'; task = at_index s.task i t' })

  pub data Reach (s : System) : System → Type 0 where
    here : Reach s s
    next : {t u : System} → Reach s t → Step t u → Reach s u

  abbrev pub idle_system : Memory → System
  idle_system m = record { memory = m; task = λ i. idle }
