-- ===== src/Examples/Leases.antt =====
-- A dialogue with the memory store, and with the server on it.
use rsdhcp.Backends.{BackendError, Lease, granted, is_current, no_lease_available, refused}
use rsdhcp.Backends.Memory.{
  handle_discover, handle_request_init_reboot, handle_request_selecting, lease_mask, offered_lease,
}
use rsdhcp.Backends.Memory.Database.{Memory, get_lease_for_ip, lookup}
use rsdhcp.Backends.Memory.Granted.{handle_discover-keeps, handle_request_selecting-handle_discover}
use rsdhcp.Backends.Memory.Laws.{Distinct}
use rsdhcp.Backends.Memory.Maskless.{Maskless}
use rsdhcp.Backends.Memory.Offers.{
  Exhausted, Offered, handle_discover-Exhausted, handle_discover-Offered,
}
use rsdhcp.Backends.Memory.Sound.{handle_request_init_reboot-refused}
use rsdhcp.Examples.Setting.{
  clock, cursor, discover_packet, from_client, lease_at, networks, selecting_packet, server_ip,
  store_with,
}
use rsdhcp.Prelude.{All, [], refl, some, true, ℕ, ◌∷◌, ◌≡◌}
use rsdhcp.Protocol.Enums.{request}
use rsdhcp.Protocol.Option.{address_request, code, dhcp_msg_type, router}
use rsdhcp.Protocol.Options.{get_option}

abbrev empty_store : Memory
empty_store = store_with []

-- The lease of the first offer.
abbrev offered : Lease
offered =
    offered_lease 100 discover_packet (0x0a00_0002, 0xffff_ff00) (router (server_ip ∷ []) ∷ [])

abbrev offered_store : Memory
offered_store = store_with ((0x0a00_0002, offered) ∷ [])

first_offer :
    handle_discover 100 server_ip discover_packet empty_store ≡ (granted offered, offered_store)
unfolding handle_discover get_option code
first_offer = refl

abbrev full_store : Memory
full_store =
    store_with
      ((0x0a00_0002, lease_at 0x0a00_0002 90) ∷ (0x0a00_0003, lease_at 0x0a00_0003 95) ∷ [])

full_refused :
    handle_discover 100 server_ip discover_packet full_store
    ≡ (refused no_lease_available, full_store)
unfolding handle_discover
full_refused = refl

full-Distinct : Distinct full_store.database
unfolding Distinct lookup
full-Distinct = (refl, (refl, tt))

handle_discover-Offered_example : Offered 100 discover_packet empty_store offered offered_store
unfolding Distinct
handle_discover-Offered_example =
    handle_discover-Offered 100 server_ip discover_packet empty_store offered_store offered tt
      first_offer

handle_discover-Exhausted_example :
    ((x : BackendError) (m' : Memory)
      → handle_discover 100 server_ip discover_packet full_store ≡ (refused x, m')
      → Exhausted 100 full_store × (x ≡ no_lease_available) × (m' ≡ full_store))
    × (Exhausted 100 full_store
        → handle_discover 100 server_ip discover_packet full_store
          ≡ (refused no_lease_available, full_store))
handle_discover-Exhausted_example =
    handle_discover-Exhausted 100 server_ip discover_packet full_store full-Distinct

full-Exhausted : Exhausted 100 full_store
full-Exhausted =
    ((handle_discover-Exhausted 100 server_ip discover_packet full_store full-Distinct).0
      no_lease_available full_store full_refused).0

handle_discover-keeps_example :
    (net : networks.Ipv4Net) × (offered.yiaddr ≡ some net)
    × (get_lease_for_ip (networks.addr net) offered_store ≡ some offered)
    × ((other : ℕ) (held : Lease)
        → get_lease_for_ip other empty_store ≡ some held
        → is_current 100 held ≡ true
        → (¬ (other ≡ networks.addr net)) × (get_lease_for_ip other offered_store ≡ some held))
unfolding Distinct
handle_discover-keeps_example =
    handle_discover-keeps 100 server_ip discover_packet empty_store offered_store offered tt
      first_offer

handle_request_selecting-handle_discover_example :
    ((selecting_packet 0x0a00_0002).xid ≡ discover_packet.xid
      → handle_request_selecting 101 server_ip (selecting_packet 0x0a00_0002) offered_store
        ≡ (granted offered, offered_store))
    × (¬ ((selecting_packet 0x0a00_0002).xid ≡ discover_packet.xid)
        → handle_request_selecting 101 server_ip (selecting_packet 0x0a00_0002) offered_store
          ≡ (refused no_lease_available, offered_store))
unfolding Distinct get_option code offered_lease
handle_request_selecting-handle_discover_example =
    handle_request_selecting-handle_discover 100 101 server_ip discover_packet
      (selecting_packet 0x0a00_0002) empty_store offered_store offered (0x0a00_0002, 0xffff_ff00) tt
      first_offer refl refl

full-Maskless : All (λ entry. Maskless entry.1) full_store.database
unfolding Maskless lease_mask get_option code
full-Maskless = ((λ mask e. cc), ((λ mask e. cc), tt))

handle_request_init_reboot-refused_example :
    (x : BackendError) × (handle_request_init_reboot 100 server_ip
        (from_client (dhcp_msg_type request ∷ address_request 0x0a00_0002 ∷ []))
        full_store
      ≡ (refused x, full_store))
handle_request_init_reboot-refused_example =
    handle_request_init_reboot-refused 100 server_ip
      (from_client (dhcp_msg_type request ∷ address_request 0x0a00_0002 ∷ [])) full_store
      full-Maskless
