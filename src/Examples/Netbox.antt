-- ===== src/Examples/Netbox.antt =====
-- A NetBox installation of two pages of leases, and the backend's requests to it.
use rsdhcp.Backends.{granted}
use rsdhcp.Backends.Netbox.{netbox_store}
use rsdhcp.Backends.Netbox.Allocation.{IsAllocation, get_lease-IsAllocation}
use rsdhcp.Backends.Netbox.Identity.{u8_to_hex-injective}
use rsdhcp.Backends.Netbox.Listing.{get_leases_for_client_id-Pages, last_page, next_page}
use rsdhcp.Backends.Netbox.Lookup.{
  decline_at, decline_lease, delete_lease, get_client_id, get_lease, get_leases_for_client_id,
  renew_lease, u8_to_hex,
}
use rsdhcp.Backends.Netbox.Removal.{SentUpTo, decline_lease-SentUpTo, delete_lease-SentUpTo}
use rsdhcp.Backends.Netbox.Renewal.{IsRenewal, renew_lease-IsRenewal, renewed_lease}
use rsdhcp.Backends.Netbox.Requests.{declined_lease, get_page, send_request}
use rsdhcp.Backends.Netbox.Web.{
  Client, NetboxDhcpLease, NetboxPaginatedList, Request, Sent, arrived, broken, get, get_query,
}
use rsdhcp.Examples.Setting.{
  client_options, clock, cursor, discover_packet, from_client, from_client_bytes, networks,
  server_ip,
}
use rsdhcp.Prelude.{List, [], arith, false, none, refl, some, true, ℕ, ◌++◌, ◌+◌, ◌∷◌, ◌≡◌}
use rsdhcp.Protocol.Bytes.{u16_from_be_bytes, u32_from_be_bytes}
use rsdhcp.Protocol.Enums.{hardware_from, init_reboot, message_from, operation_from, request}
use rsdhcp.Protocol.Errors.{ok}
use rsdhcp.Protocol.Option.{address_request, code, dhcp_msg_type}
use rsdhcp.Protocol.Option.Arms.{new}
use rsdhcp.Protocol.Options.{get_option}
use rsdhcp.Protocol.Packet.{DhcpPacket, client_state, from_network, message_type, to_array}
use rsdhcp.Protocol.Packet.Hex.{hex_chaddr, hex_chaddr-u8_to_hex}
use rsdhcp.Protocol.Value.{ipv4_from_network, message_type_from_network}
use rsdhcp.Server.{process_packet_data}
use rsdhcp.Server.Renewing.{IsAnswered, process_packet_data-IsAnswered}
use rsdhcp.Protocol.Options as Options

-- A reply of the installation, whose world is the number of requests that it has had.
pub data Reply : Type 0 where
  leases : NetboxPaginatedList NetboxDhcpLease → Reply
  lease : NetboxDhcpLease → Reply

abbrev held : ℕ → NetboxDhcpLease
held ip = record {
  id = 1;
  url = b'l' ∷ [];
  mac_address = [];
  client_id = [];
  receiving_ip = server_ip;
  requested_ip = none;
  hostname = none;
  lease_time = 50;
  expire_time = 3650;
  ip_address = record { address = (ip, 0xffff_ff00) };
  gateway = none;
  options = record {
    dns_servers = none;
    domain_name = none;
    boot_file = none;
    boot_server = none;
    grub_default = none;
  };
  acknowledged = false;
}

abbrev elsewhere : NetboxDhcpLease
elsewhere = held 0x0b00_0002

abbrev near : NetboxDhcpLease
near = held 0x0a00_0002

abbrev second_page : NetboxPaginatedList NetboxDhcpLease
second_page = record { count = 2; next = none; previous = none; results = near ∷ [] }

abbrev first_page : NetboxPaginatedList NetboxDhcpLease
first_page = record {
  count = 2;
  next = some (b'2' ∷ []);
  previous = none;
  results = elsewhere ∷ [];
}

abbrev reply_to : Request → Reply
reply_to (get _) = leases second_page
reply_to (get_query _ _ _) = leases first_page
reply_to _ = lease near

abbrev page_in : Reply → Sent (NetboxPaginatedList NetboxDhcpLease)
page_in (leases page) = arrived page
page_in (lease _) = broken "not a list"

abbrev lease_in : Reply → Sent NetboxDhcpLease
lease_in (leases _) = broken "not a lease"
lease_in (lease l) = arrived l

abbrev installation : Client ℕ Reply
installation = record {
  send = λ req w. (arrived (reply_to req), w + 1);
  is_success = λ r. true;
  status_text = λ r. "200 OK";
  text = λ r. none;
  json_page = page_in;
  json_lease = lease_in;
}

abbrev lease_url : List ℕ
lease_url = b'u' ∷ []

get_leases_for_client_id-Pages_example :
    get_leases_for_client_id installation lease_url 1 [] 0 ≡ (granted (elsewhere ∷ near ∷ []), 2)
unfolding get_page send_request
get_leases_for_client_id-Pages_example =
    get_leases_for_client_id-Pages installation lease_url 1 [] first_page 1 (near ∷ []) 0 1 2
      (leases first_page, refl, refl)
      (next_page 0 (b'2' ∷ []) second_page [] 1 2 2 refl (last_page 2)) (omega arith)

listed :
    (cid : List ℕ)
    → get_leases_for_client_id installation lease_url 1 cid 0 ≡ (granted (elsewhere ∷ near ∷ []), 2)
unfolding get_leases_for_client_id
listed cid = refl

-- The client renews its address.
abbrev renewing : DhcpPacket
renewing = record (from_client (dhcp_msg_type request ∷ client_options)) { ciaddr = 0x0a00_0002 }

abbrev declining : DhcpPacket
declining =
    from_client (dhcp_msg_type rsdhcp.Protocol.Enums.decline ∷ address_request 0x0a00_0002 ∷ [])

renew_lease-IsRenewal_example :
    IsRenewal installation lease_url 1 renewing
      (near ∷ [])
      2
      (granted (renewed_lease installation lease_url 1 renewing near))
      3
unfolding renew_lease get_option code
renew_lease-IsRenewal_example =
    renew_lease-IsRenewal installation lease_url 1 server_ip renewing (elsewhere ∷ near ∷ []) 0 2
      (listed (get_client_id renewing))

get_lease-IsAllocation_example :
    IsAllocation installation lease_url 1 server_ip discover_packet
      (elsewhere ∷ near ∷ [])
      2
      (granted (renewed_lease installation lease_url 1 discover_packet near))
      3
unfolding get_lease
get_lease-IsAllocation_example =
    get_lease-IsAllocation installation lease_url 1 server_ip discover_packet
      (elsewhere ∷ near ∷ []) 0 2 (listed (get_client_id discover_packet))

delete_lease-SentUpTo_example :
    SentUpTo installation lease_url 1 (Request.delete near.url ∷ []) 2 (granted tt) 3
unfolding delete_lease
delete_lease-SentUpTo_example =
    delete_lease-SentUpTo installation lease_url 1 renewing (elsewhere ∷ near ∷ []) 0 2
      (listed (get_client_id renewing))

decline_lease-SentUpTo_example :
    SentUpTo installation lease_url 1
      (Request.put near.url (declined_lease 100 near) ∷ [])
      2
      (granted tt)
      3
unfolding decline_lease get_option code decline_at
decline_lease-SentUpTo_example =
    decline_lease-SentUpTo installation lease_url 1 100 declining (elsewhere ∷ near ∷ []) 0 2
      (listed (get_client_id declining))

u8_to_hex-injective_example : ◌≡◌ {A = List ℕ} (1 ∷ 171 ∷ []) (1 ∷ 171 ∷ [])
u8_to_hex-injective_example =
    u8_to_hex-injective (1 ∷ 171 ∷ []) (1 ∷ 171 ∷ []) (omega arith, (omega arith, tt))
      (omega arith, (omega arith, tt)) refl

hex_chaddr-u8_to_hex_example :
    hex_chaddr discover_packet ≡ u8_to_hex (0 ∷ 11 ∷ 130 ∷ 1 ∷ 252 ∷ 66 ∷ []) ++ []
hex_chaddr-u8_to_hex_example = hex_chaddr-u8_to_hex discover_packet refl

-- A client that has rebooted asks for its address.
abbrev reboot_bytes : List ℕ
reboot_bytes = from_client_bytes (53 ∷ 1 ∷ 3 ∷ 50 ∷ 4 ∷ 10 ∷ 0 ∷ 0 ∷ 2 ∷ 255 ∷ [])

abbrev rebooting : DhcpPacket
rebooting = from_client (dhcp_msg_type request ∷ address_request 0x0a00_0002 ∷ [])

reboot_decoded : from_network reboot_bytes true ≡ ok rebooting
unfolding from_network to_array Options.from_network operation_from hardware_from u32_from_be_bytes
    u16_from_be_bytes new ipv4_from_network message_type_from_network message_from
reboot_decoded = refl

process_packet_data-IsAnswered_example :
    let answer =
      process_packet_data
        (netbox_store installation lease_url 1)
        100
        server_ip
        (some 0xffff_ffff)
        reboot_bytes
        0 in
    IsAnswered installation lease_url 1 100 server_ip rebooting (near ∷ []) 2 answer.0 answer.1
unfolding get_option code message_type client_state
process_packet_data-IsAnswered_example =
    process_packet_data-IsAnswered installation lease_url 1 100 server_ip (some 0xffff_ffff)
      reboot_bytes rebooting init_reboot (elsewhere ∷ near ∷ []) 0 2 reboot_decoded refl refl refl
      (λ e. cc) (listed (get_client_id rebooting))
