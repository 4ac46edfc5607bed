-- ===== src/Backends/Memory.antt =====
-- The handlers of rsdhcp/src/backends/memory.rs. Each runs alone, at one time `now`.
pub mod Config
pub mod Database
pub mod Granted
pub mod Laws
pub mod Maskless
pub mod Offers
pub mod Sound
pub mod Tasks
pub mod Params
use rsdhcp.Backends.{
  BackendError, BackendResult, DhcpStore, Lease, default_lease, generic, granted,
  no_lease_available, panicked, protocol_error, refused,
}
use rsdhcp.Backends.Memory.Database.{
  Memory, get_exprired_lease_ip_addr, get_lease_for_ip, get_lease_for_xid, get_unused_ip_addr,
  remove_lease, store_lease,
}
use rsdhcp.Backends.Memory.Params.{default_param_list, process_params}
use rsdhcp.External.{Chrono, Ipnet}
use rsdhcp.Prelude.{List, Option, [], if◌then◌else◌, none, not, some, ℕ, ◌==◌, ◌∷◌}
use rsdhcp.Prelude.Int.{pos}
use rsdhcp.Protocol.Option.{
  DhcpOption, address_request, address_request_code, parameter_list, parameter_list_code,
  subnet_mask, subnet_mask_code,
}
use rsdhcp.Protocol.Options.{DhcpOptions, get_option}
use rsdhcp.Protocol.Packet.{DhcpPacket, is_unspecified}
use rsdhcp.Protocol.Packet.Reply.{or_else}
use rsdhcp.Protocol.Value.{Ipv4Addr}
use mathlib.Core.Option

module _ ⦃ipnet : Ipnet⦄ ⦃chrono : Chrono⦄ where
  -- The codes that the client asks for, or the default ones.
  unfoldable pub requested_params : Option DhcpOption → List ℕ
  requested_params (some (parameter_list (c ∷ cs))) = c ∷ cs
  requested_params _ = default_param_list

  abbrev pub options_of : List DhcpOption → Option DhcpOptions
  options_of [] = none
  options_of (o ∷ os) = some (record { options = o ∷ os })

  -- The lease that a discover offers.
  unfoldable pub offered_lease :
      chrono.DateTime → DhcpPacket → ipnet.Ipv4Net → List DhcpOption → Lease
  offered_lease now packet net params = record (default_lease now) {
    xid = packet.xid;
    yiaddr = some net;
    lease_duration = chrono.seconds (pos 3600);
    options = options_of params;
  }

  abbrev pub chosen_address : Option Ipv4Addr → Option Ipv4Addr → Option Ipv4Addr
  chosen_address (some ip) expired = some ip
  chosen_address none expired = expired

  -- From the address on: `unwrap` of the network and the parameters, then the store.
  unfoldable pub offer_address :
      chrono.DateTime → DhcpPacket → Memory → Ipv4Addr → BackendResult Lease × Memory
  unfolding offered_lease store_lease process_params requested_params
  offer_address now packet m ip = elim (ipnet.with_netmask ip m.netmask_addr) [
    | none ↦ (panicked, m)
    | some net ↦
        elim (process_params m (requested_params (get_option packet.options parameter_list_code))) [
          | none ↦ (panicked, m)
          | some params ↦ (
            granted (offered_lease now packet net params),
            store_lease (offered_lease now packet net params) m,
          )
        ]
  ]

  unfoldable pub handle_discover :
      chrono.DateTime → Ipv4Addr → DhcpPacket → Memory → BackendResult Lease × Memory
  unfolding offer_address get_unused_ip_addr get_exprired_lease_ip_addr
  handle_discover now recv_ip packet m =
      elim (chosen_address (get_unused_ip_addr m) (get_exprired_lease_ip_addr now m)) [
        | none ↦ (refused no_lease_available, m)
        | some ip ↦ offer_address now packet m ip
      ]

  -- The address of the option, where it is of its variant.
  unfoldable pub requested_address : Option DhcpOption → Option Ipv4Addr
  requested_address (some (address_request o)) = some o
  requested_address _ = none

  abbrev pub matching_lease : ℕ → Option Lease → BackendResult Lease
  matching_lease xid none = refused no_lease_available
  matching_lease xid (some lease) =
      if not (lease.xid == xid) then refused no_lease_available else granted lease

  unfoldable pub handle_request_selecting :
      chrono.DateTime → Ipv4Addr → DhcpPacket → Memory → BackendResult Lease × Memory
  unfolding get_lease_for_ip requested_address
  handle_request_selecting now recv_ip packet m =
      elim (requested_address (get_option packet.options address_request_code)) [
        | none ↦ (refused no_lease_available, m)
        | some ip ↦ (matching_lease packet.xid (get_lease_for_ip ip m), m)
      ]

  -- The subnet mask that the lease's options give: none is an error, and a lease with no options,
  -- or with another variant under that code, leaves the mask unspecified.
  abbrev pub mask_in : Option DhcpOption → Option Ipv4Addr
  mask_in (some (subnet_mask m)) = some m
  mask_in (some o) = some 0
  mask_in none = none

  unfoldable pub lease_mask : Option DhcpOptions → Option Ipv4Addr
  lease_mask none = some 0
  lease_mask (some opts) = mask_in (get_option opts subnet_mask_code)

  abbrev pub no_mask_error : BackendError
  no_mask_error = generic "Malformed lease: no subnet mask"

  -- The lease is removed if the client is on another network, and in any case stored again.
  unfoldable pub reboot_lease :
      chrono.DateTime
      → Ipv4Addr
      → Ipv4Addr
      → Ipv4Addr
      → Lease
      → Memory
      → BackendResult Lease × Memory
  unfolding remove_lease store_lease
  reboot_lease now origin ip mask lease m =
      let lease' = record lease { lease_time = now } in
      let m' : Memory = elim (ipnet.with_netmask ip mask) [
        | some net ↦ if not (ipnet.contains net origin) then remove_lease ip m else m
        | none ↦ m
      ] in
      (granted lease', store_lease lease' m')

  unfoldable pub masked_reboot :
      chrono.DateTime → Ipv4Addr → Ipv4Addr → Lease → Memory → BackendResult Lease × Memory
  unfolding lease_mask reboot_lease
  masked_reboot now origin ip lease m = elim (lease_mask lease.options) [
    | none ↦ (refused no_mask_error, m)
    | some mask ↦
        if is_unspecified mask
        then (refused no_mask_error, m)
        else reboot_lease now origin ip mask lease m
  ]

  unfoldable pub handle_request_init_reboot :
      chrono.DateTime → Ipv4Addr → DhcpPacket → Memory → BackendResult Lease × Memory
  unfolding masked_reboot get_lease_for_ip requested_address
  handle_request_init_reboot now recv_ip packet m =
      let ip = or_else (requested_address (get_option packet.options address_request_code)) 0 in
      let origin = if not (is_unspecified packet.giaddr) then packet.giaddr else recv_ip in
      if is_unspecified ip
      then (refused (protocol_error "Init Reboot state expects"), m)
      else elim (get_lease_for_ip ip m) [
        | none ↦ (refused no_lease_available, m)
        | some lease ↦ masked_reboot now origin ip lease m
      ]

  unfoldable pub handle_request_renewing :
      chrono.DateTime → Ipv4Addr → DhcpPacket → Memory → BackendResult Lease × Memory
  unfolding get_lease_for_ip requested_address store_lease
  handle_request_renewing now recv_ip packet m =
      let ip =
        or_else (requested_address (get_option packet.options address_request_code))
          packet.ciaddr in
      if is_unspecified ip
      then (refused (protocol_error "renewing clients must include requested IP"), m)
      else elim (get_lease_for_ip ip m) [
        | none ↦ (refused no_lease_available, m)
        | some lease ↦
            let lease' = record lease { lease_time = now } in (granted lease', store_lease lease' m)
      ]

  unfoldable pub handle_request_rebinding :
      chrono.DateTime → Ipv4Addr → DhcpPacket → Memory → BackendResult Lease × Memory
  unfolding handle_request_renewing
  handle_request_rebinding now recv_ip packet m = handle_request_renewing now recv_ip packet m

  unfoldable pub handle_release : DhcpPacket → Memory → BackendResult (Unit {0}) × Memory
  unfolding remove_lease
  handle_release packet m = (granted tt, remove_lease packet.yiaddr m)

  abbrev pub remove_of : Option Lease → Memory → Memory
  remove_of none m = m
  remove_of (some lease) m = elim lease.yiaddr [
    | none ↦ m
    | some net ↦ remove_lease (ipnet.addr net) m
  ]

  unfoldable pub handle_decline :
      chrono.DateTime → DhcpPacket → Memory → BackendResult (Unit {0}) × Memory
  unfolding get_lease_for_xid remove_lease
  handle_decline now packet m = (granted tt, remove_of (get_lease_for_xid packet.xid m) m)

  unfoldable pub handle_inform :
      chrono.DateTime → Ipv4Addr → DhcpPacket → Memory → BackendResult Lease × Memory
  handle_inform now recv_ip packet m = (refused (generic "Not implemented"), m)

  -- The implementation of the trait.
  abbrev pub memory_store : DhcpStore Memory
  memory_store = record {
    handle_discover = handle_discover;
    handle_request_selecting = handle_request_selecting;
    handle_request_init_reboot = handle_request_init_reboot;
    handle_request_renewing = handle_request_renewing;
    handle_request_rebinding = handle_request_rebinding;
    handle_release = handle_release;
    handle_decline = handle_decline;
    handle_inform = handle_inform;
  }
