-- ===== src/Protocol/Option/Arms.antt =====
-- The derived `new` and `from_network` of `DhcpOption` (rsdhcp_macros/src/lib.rs).
use rsdhcp.Prelude.{List, [], if◌then◌else◌, length, ltb, take, ℕ, ◌==◌, ◌∷◌}
use rsdhcp.Protocol.Errors.{Result, err, malformed_option, ok, unknown_code, ◌>>=◌}
use rsdhcp.Protocol.Option.{
  DhcpOption, address_request, address_time, arp_timeout, boot_file_size, bootfile_name,
  broadcast_address, class_id, client_fully_qualified_domain_name, client_id, default_ip_ttl,
  default_tcp_ttl, dhcp_max_msg_size, dhcp_message, dhcp_msg_type, dhcp_server_id, domain_name,
  domain_search, domain_server, end, ethernet, extension_file, finger_server, forward_on_off,
  home_agent_addrs, hostname, impress_server, irc_server, keepalive_data, keepalive_time,
  log_server, lpr_server, mask_discovery, mask_supplier, max_dg_assembly, merit_dump_file,
  mtu_interface, mtu_plateau, mtu_subnet, mtu_timeout, name_server, netbios_dist_srv,
  netbios_name_srv, netbios_node_type, netbios_scope, nis_domain, nis_domain_name, nis_server_addr,
  nis_servers, nntp_server, ntp_servers, overload, pad, parameter_list, policy_filter, pop3_server,
  quotes_server, rebinding_time, relay_agent_information, renewal_time, rlp_server, root_path,
  router, router_discovery, router_request, server_name, service_location_protocol_naming_authority,
  smtp_server, src_rte_on_off, static_route, stda_server, street_talk_server, subnet_mask,
  swap_server, time_offset, time_server, trailers, vendor_specific, www_server, x_window_font,
  x_window_manager,
}
use rsdhcp.Protocol.Value.{
  ValueSerde, bytes_serde, client_fqdn_serde, i32_serde, ip_list_serde, ip_mask_list_serde,
  ipv4_serde, message_type_serde, string_serde, u16_list_serde, u16_serde, u32_serde, u8_serde,
}

-- One arm of the match of `new`: a code, and what the arm makes of the data.
pub record Arm : Type 0 where
  pub arm_code : ℕ
  pub decode : List ℕ → Result DhcpOption

-- `#code => #name::#ident(<#vtype_field>::from_network(data)?)`
abbrev pub value_arm : {A : Type 0} → ℕ → (A → DhcpOption) → ValueSerde A → Arm
value_arm c con s = record {
  arm_code = c;
  decode = λ bytes. (do v ← s.from_network bytes; ok (con v));
}

-- `#code => #name::#ident`
abbrev pub unit_arm : ℕ → DhcpOption → Arm
unit_arm c o = record { arm_code = c; decode = λ bytes. ok o }

-- `new_matches`, in the order of the variants.
abbrev pub new_arms : List Arm
new_arms =
    unit_arm 0 pad
    ∷ value_arm 1 subnet_mask ipv4_serde
    ∷ value_arm 2 time_offset i32_serde
    ∷ value_arm 3 router ip_list_serde
    ∷ value_arm 4 time_server ip_list_serde
    ∷ value_arm 5 name_server ip_list_serde
    ∷ value_arm 6 domain_server ip_list_serde
    ∷ value_arm 7 log_server ip_list_serde
    ∷ value_arm 8 quotes_server ip_list_serde
    ∷ value_arm 9 lpr_server ip_list_serde
    ∷ value_arm 10 impress_server ip_list_serde
    ∷ value_arm 11 rlp_server ip_list_serde
    ∷ value_arm 12 hostname string_serde
    ∷ value_arm 13 boot_file_size u16_serde
    ∷ value_arm 14 merit_dump_file string_serde
    ∷ value_arm 15 domain_name string_serde
    ∷ value_arm 16 swap_server ipv4_serde
    ∷ value_arm 17 root_path string_serde
    ∷ value_arm 18 extension_file string_serde
    ∷ value_arm 19 forward_on_off u8_serde
    ∷ value_arm 20 src_rte_on_off u8_serde
    ∷ value_arm 21 policy_filter ip_mask_list_serde
    ∷ value_arm 22 max_dg_assembly u16_serde
    ∷ value_arm 23 default_ip_ttl u8_serde
    ∷ value_arm 24 mtu_timeout u32_serde
    ∷ value_arm 25 mtu_plateau u16_list_serde
    ∷ value_arm 26 mtu_interface u16_serde
    ∷ value_arm 27 mtu_subnet u8_serde
    ∷ value_arm 28 broadcast_address ipv4_serde
    ∷ value_arm 29 mask_discovery u8_serde
    ∷ value_arm 30 mask_supplier u8_serde
    ∷ value_arm 31 router_discovery u8_serde
    ∷ value_arm 32 router_request ipv4_serde
    ∷ value_arm 33 static_route ip_mask_list_serde
    ∷ value_arm 34 trailers u8_serde
    ∷ value_arm 35 arp_timeout u32_serde
    ∷ value_arm 36 ethernet u8_serde
    ∷ value_arm 37 default_tcp_ttl u8_serde
    ∷ value_arm 38 keepalive_time u32_serde
    ∷ value_arm 39 keepalive_data u8_serde
    ∷ value_arm 40 nis_domain string_serde
    ∷ value_arm 41 nis_servers ip_list_serde
    ∷ value_arm 42 ntp_servers ip_list_serde
    ∷ value_arm 43 vendor_specific bytes_serde
    ∷ value_arm 44 netbios_name_srv ip_list_serde
    ∷ value_arm 45 netbios_dist_srv ip_list_serde
    ∷ value_arm 46 netbios_node_type u8_serde
    ∷ value_arm 47 netbios_scope string_serde
    ∷ value_arm 48 x_window_font ip_list_serde
    ∷ value_arm 49 x_window_manager ip_list_serde
    ∷ value_arm 50 address_request ipv4_serde
    ∷ value_arm 51 address_time u32_serde
    ∷ value_arm 52 overload u8_serde
    ∷ value_arm 53 dhcp_msg_type message_type_serde
    ∷ value_arm 54 dhcp_server_id ipv4_serde
    ∷ value_arm 55 parameter_list bytes_serde
    ∷ value_arm 56 dhcp_message string_serde
    ∷ value_arm 57 dhcp_max_msg_size u16_serde
    ∷ value_arm 58 renewal_time u32_serde
    ∷ value_arm 59 rebinding_time u32_serde
    ∷ value_arm 60 class_id string_serde
    ∷ value_arm 61 client_id bytes_serde
    ∷ value_arm 64 nis_domain_name string_serde
    ∷ value_arm 65 nis_server_addr ip_list_serde
    ∷ value_arm 66 server_name string_serde
    ∷ value_arm 67 bootfile_name string_serde
    ∷ value_arm 68 home_agent_addrs ip_list_serde
    ∷ value_arm 69 smtp_server ip_list_serde
    ∷ value_arm 70 pop3_server ip_list_serde
    ∷ value_arm 71 nntp_server ip_list_serde
    ∷ value_arm 72 www_server ip_list_serde
    ∷ value_arm 73 finger_server ip_list_serde
    ∷ value_arm 74 irc_server ip_list_serde
    ∷ value_arm 75 street_talk_server ip_list_serde
    ∷ value_arm 76 stda_server ip_list_serde
    ∷ value_arm 80 service_location_protocol_naming_authority bytes_serde
    ∷ value_arm 81 client_fully_qualified_domain_name client_fqdn_serde
    ∷ value_arm 82 relay_agent_information bytes_serde
    ∷ value_arm 119 domain_search bytes_serde
    ∷ unit_arm 255 end
    ∷ []

-- A match takes the first arm whose code fits; `_` is the unknown code.
unfoldable pub match_arms : List Arm → ℕ → List ℕ → Result DhcpOption
match_arms [] c bytes = err (unknown_code c)
match_arms (arm ∷ arms) c bytes =
    if c == arm.arm_code then arm.decode bytes else match_arms arms c bytes

unfoldable pub new : ℕ → List ℕ → Result DhcpOption
unfolding match_arms
new c bytes = match_arms new_arms c bytes

-- What follows the code: the length byte and the value, behind which data may stand.
unfoldable pub from_length : ℕ → List ℕ → Result DhcpOption
unfolding new
from_length c [] = err malformed_option
from_length c (len ∷ rest) =
    if ltb (length rest) len then err malformed_option else new c (take len rest)

unfoldable pub from_network : List ℕ → Result DhcpOption
unfolding from_length
from_network [] = err malformed_option
from_network (c ∷ rest) =
    if c == 0 then new c [] else if c == 255 then new c [] else from_length c rest
