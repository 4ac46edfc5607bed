-- ===== src/Examples/Vacant.antt =====
-- A NetBox installation without leases, which makes one for whoever asks.
use rsdhcp.Backends.{BackendResult, granted, no_lease_available, refused}
use rsdhcp.Backends.Netbox.{lease_of, netbox_store}
use rsdhcp.Backends.Netbox.Lookup.{get_lease, renew_lease}
use rsdhcp.Backends.Netbox.Sendable.{HasWidths}
use rsdhcp.Backends.Netbox.Web.{Client, NetboxDhcpLease, arrived}
use rsdhcp.Examples.Setting.{
  all_bytes-All, clock, cursor, discover_bytes, discover_packet, networks, server_ip,
}
use rsdhcp.Prelude.{[], arith, inl, inr, none, refl, some, some-eq, subst, true, ℕ, ◌+◌, ◌≡◌}
use rsdhcp.Protocol.Bytes.{IsU32, u16_from_be_bytes, u32_from_be_bytes}
use rsdhcp.Protocol.Enums.{hardware_from, message_from, operation_from}
use rsdhcp.Protocol.Option.{code}
use rsdhcp.Protocol.Option.Arms.{new}
use rsdhcp.Protocol.Options.{get_option}
use rsdhcp.Protocol.Packet.{DhcpPacket, from_network, to_array, to_network}
use rsdhcp.Protocol.Packet.Reply.{response}
use rsdhcp.Protocol.Packet.WellFormed.{IsWellFormed}
use rsdhcp.Protocol.Value.{bytes_from_network, message_type_from_network, u16_from_network}
use rsdhcp.Server.{process_packet_data}
use rsdhcp.Server.Sendable.{HasLeases, process_packet_data-netbox_store}
use rsdhcp.Protocol.Options as Options

abbrev made : NetboxDhcpLease
made = record {
  id = 1;
  url = [];
  mac_address = [];
  client_id = [];
  receiving_ip = server_ip;
  requested_ip = none;
  hostname = none;
  lease_time = 50;
  expire_time = 3650;
  ip_address = record { address = (0x0a00_0002, 0xffff_ff00) };
  gateway = some server_ip;
  options = record {
    dns_servers = none;
    domain_name = none;
    boot_file = none;
    boot_server = none;
    grub_default = none;
  };
  acknowledged = true;
}

-- Every list is empty, and the world is the number of requests.
abbrev vacancy : Client ℕ (Unit {0})
vacancy = record {
  send = λ req w. (arrived tt, w + 1);
  is_success = λ r. true;
  status_text = λ r. "200 OK";
  text = λ r. none;
  json_page = λ r. arrived (record { count = 0; next = none; previous = none; results = [] });
  json_lease = λ r. arrived made;
}

made-HasWidths : HasWidths made
made-HasWidths = record {
  address = omega arith;
  netmask = omega arith;
  gateway = λ ip e. subst IsU32 (some-eq e) (omega arith);
  dns_servers = λ ips e. cc;
  domain_text = λ s e. cc;
  boot_file = λ s e. cc;
  boot_server = λ ip e. cc;
  grub_default = λ s e. cc;
}

vacancy-HasLeases : HasLeases vacancy [] 0
unfolding get_lease renew_lease
vacancy-HasLeases ip p w w' l (inl e) =
    let e' : ◌≡◌ {A = BackendResult NetboxDhcpLease × ℕ} (granted made, w + 1 + 1) (granted l, w') =
      e in
    let same : made ≡ l = cc in subst HasWidths same made-HasWidths
vacancy-HasLeases ip p w w' l (inr e) =
    let e' : ◌≡◌ {A = BackendResult NetboxDhcpLease × ℕ} (refused no_lease_available, w + 1)
        (granted l, w') =
      e in
    cc

abbrev offer_packet : DhcpPacket
offer_packet =
    response discover_packet (record (lease_of 100 made) { server_identifier = server_ip })

offer_sent :
    process_packet_data
      (netbox_store vacancy [] 0)
      100
      server_ip
      (some 0xffff_ffff)
      discover_bytes
      0
    ≡ (
      some (record {
        dest = record { ip = 0xffff_ffff; port = 68 };
        payload = to_network offer_packet;
      }),
      2,
    )
unfolding process_packet_data from_network to_array Options.from_network operation_from
    hardware_from u32_from_be_bytes u16_from_be_bytes new bytes_from_network u16_from_network
    message_type_from_network message_from get_option code netbox_store response
offer_sent = refl

process_packet_data-netbox_store_example :
    (reply : DhcpPacket) × IsWellFormed reply × (to_network offer_packet ≡ to_network reply)
process_packet_data-netbox_store_example =
    process_packet_data-netbox_store vacancy [] 0 100 server_ip (some 0xffff_ffff) discover_bytes 0
      2
      (record { dest = record { ip = 0xffff_ffff; port = 68 }; payload = to_network offer_packet })
      (omega arith) vacancy-HasLeases (all_bytes-All discover_bytes refl) offer_sent
