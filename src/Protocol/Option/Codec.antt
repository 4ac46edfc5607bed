-- ===== src/Protocol/Option/Codec.antt =====
-- What `new` and `value_bytes` owe each other: an option's value decodes to the option.
use rsdhcp.Prelude.{All, List, Option, [], none, refl, some, ℕ, ◌≡◌}
use rsdhcp.Protocol.Bytes.{IsByte, IsU16, IsU32}
use rsdhcp.Protocol.Errors.{ok, ◌>>=◌}
use rsdhcp.Protocol.Option.{
  DhcpOption, address_request, address_time, arp_timeout, boot_file_size, bootfile_name,
  broadcast_address, class_id, client_fully_qualified_domain_name, client_id, code, default_ip_ttl,
  default_tcp_ttl, dhcp_max_msg_size, dhcp_message, dhcp_msg_type, dhcp_server_id, domain_name,
  domain_search, domain_server, end, ethernet, extension_file, finger_server, forward_on_off,
  home_agent_addrs, hostname, impress_server, irc_server, keepalive_data, keepalive_time,
  log_server, lpr_server, mask_discovery, mask_supplier, max_dg_assembly, merit_dump_file,
  mtu_interface, mtu_plateau, mtu_subnet, mtu_timeout, name_server, netbios_dist_srv,
  netbios_name_srv, netbios_node_type, netbios_scope, nis_domain, nis_domain_name, nis_server_addr,
  nis_servers, nntp_server, ntp_servers, overload, pad, parameter_list, policy_filter, pop3_server,
  quotes_server, rebinding_time, relay_agent_information, renewal_time, rlp_server, root_path,
  router, router_discovery, router_request, server_name, service_location_protocol_naming_authority,
  smtp_server, src_rte_on_off, static_route, stda_server, street_talk_server, subnet_mask,
  swap_server, time_offset, time_server, trailers, vendor_specific, www_server, x_window_font,
  x_window_manager,
}
use rsdhcp.Protocol.Option.Arms.{new}
use rsdhcp.Protocol.Option.Wire.{value_bytes}
use rsdhcp.Protocol.Value.{ValueSerde}
use rsdhcp.Protocol.Value.Laws.{IsCodec, IsFqdn, IsI32, IsIpPair, IsKnown, IsText}
use rsdhcp.Protocol.Value.Numbers.{
  bytes_codec, signed_codec, short_codec, short_list_codec, word_codec, u8_codec,
}
use rsdhcp.Protocol.Value.Structures.{
  client_name_codec, ip_list_codec, ip_mask_list_codec, ipv4_codec, message_type_codec,
  string_codec,
}

-- The value fits the type of its wire form.
abbrev pub IsValid : DhcpOption → Type 0
IsValid pad = Unit
IsValid (subnet_mask o) = IsU32 o
IsValid (time_offset o) = IsI32 o
IsValid (router o) = All IsU32 o
IsValid (time_server o) = All IsU32 o
IsValid (name_server o) = All IsU32 o
IsValid (domain_server o) = All IsU32 o
IsValid (log_server o) = All IsU32 o
IsValid (quotes_server o) = All IsU32 o
IsValid (lpr_server o) = All IsU32 o
IsValid (impress_server o) = All IsU32 o
IsValid (rlp_server o) = All IsU32 o
IsValid (hostname o) = IsText o
IsValid (boot_file_size o) = IsU16 o
IsValid (merit_dump_file o) = IsText o
IsValid (domain_name o) = IsText o
IsValid (swap_server o) = IsU32 o
IsValid (root_path o) = IsText o
IsValid (extension_file o) = IsText o
IsValid (forward_on_off o) = IsByte o
IsValid (src_rte_on_off o) = IsByte o
IsValid (policy_filter o) = All IsIpPair o
IsValid (max_dg_assembly o) = IsU16 o
IsValid (default_ip_ttl o) = IsByte o
IsValid (mtu_timeout o) = IsU32 o
IsValid (mtu_plateau o) = All IsU16 o
IsValid (mtu_interface o) = IsU16 o
IsValid (mtu_subnet o) = IsByte o
IsValid (broadcast_address o) = IsU32 o
IsValid (mask_discovery o) = IsByte o
IsValid (mask_supplier o) = IsByte o
IsValid (router_discovery o) = IsByte o
IsValid (router_request o) = IsU32 o
IsValid (static_route o) = All IsIpPair o
IsValid (trailers o) = IsByte o
IsValid (arp_timeout o) = IsU32 o
IsValid (ethernet o) = IsByte o
IsValid (default_tcp_ttl o) = IsByte o
IsValid (keepalive_time o) = IsU32 o
IsValid (keepalive_data o) = IsByte o
IsValid (nis_domain o) = IsText o
IsValid (nis_servers o) = All IsU32 o
IsValid (ntp_servers o) = All IsU32 o
IsValid (vendor_specific o) = All IsByte o
IsValid (netbios_name_srv o) = All IsU32 o
IsValid (netbios_dist_srv o) = All IsU32 o
IsValid (netbios_node_type o) = IsByte o
IsValid (netbios_scope o) = IsText o
IsValid (x_window_font o) = All IsU32 o
IsValid (x_window_manager o) = All IsU32 o
IsValid (address_request o) = IsU32 o
IsValid (address_time o) = IsU32 o
IsValid (overload o) = IsByte o
IsValid (dhcp_msg_type o) = IsKnown o
IsValid (dhcp_server_id o) = IsU32 o
IsValid (parameter_list o) = All IsByte o
IsValid (dhcp_message o) = IsText o
IsValid (dhcp_max_msg_size o) = IsU16 o
IsValid (renewal_time o) = IsU32 o
IsValid (rebinding_time o) = IsU32 o
IsValid (class_id o) = IsText o
IsValid (client_id o) = All IsByte o
IsValid (nis_domain_name o) = IsText o
IsValid (nis_server_addr o) = All IsU32 o
IsValid (server_name o) = IsText o
IsValid (bootfile_name o) = IsText o
IsValid (home_agent_addrs o) = All IsU32 o
IsValid (smtp_server o) = All IsU32 o
IsValid (pop3_server o) = All IsU32 o
IsValid (nntp_server o) = All IsU32 o
IsValid (www_server o) = All IsU32 o
IsValid (finger_server o) = All IsU32 o
IsValid (irc_server o) = All IsU32 o
IsValid (street_talk_server o) = All IsU32 o
IsValid (stda_server o) = All IsU32 o
IsValid (service_location_protocol_naming_authority o) = All IsByte o
IsValid (client_fully_qualified_domain_name o) = IsFqdn o
IsValid (relay_agent_information o) = All IsByte o
IsValid (domain_search o) = All IsByte o
IsValid end = Unit

abbrev pub value_of : Option (List ℕ) → List ℕ
value_of none = []
value_of (some bytes) = bytes

value_arm-decode :
    {A : Type 0} {s : ValueSerde A} {Valid : A → Type 0} (codec : IsCodec s Valid)
    (con : A → DhcpOption) (a : A)
    → Valid a
    → (do v ← s.from_network (s.to_network a); ok (con v)) ≡ ok (con a)
value_arm-decode codec con a h = rw (codec.decode-encode a h)

-- An option's code and value bytes are decoded to that option.
pub new-value_bytes : (o : DhcpOption) → IsValid o → new (code o) (value_of (value_bytes o)) ≡ ok o
unfolding new code value_bytes
new-value_bytes pad h = refl
new-value_bytes (subnet_mask o) h = value_arm-decode ipv4_codec subnet_mask o h
new-value_bytes (time_offset o) h = value_arm-decode signed_codec time_offset o h
new-value_bytes (router o) h = value_arm-decode ip_list_codec router o h
new-value_bytes (time_server o) h = value_arm-decode ip_list_codec time_server o h
new-value_bytes (name_server o) h = value_arm-decode ip_list_codec name_server o h
new-value_bytes (domain_server o) h = value_arm-decode ip_list_codec domain_server o h
new-value_bytes (log_server o) h = value_arm-decode ip_list_codec log_server o h
new-value_bytes (quotes_server o) h = value_arm-decode ip_list_codec quotes_server o h
new-value_bytes (lpr_server o) h = value_arm-decode ip_list_codec lpr_server o h
new-value_bytes (impress_server o) h = value_arm-decode ip_list_codec impress_server o h
new-value_bytes (rlp_server o) h = value_arm-decode ip_list_codec rlp_server o h
new-value_bytes (hostname o) h = value_arm-decode string_codec hostname o h
new-value_bytes (boot_file_size o) h = value_arm-decode short_codec boot_file_size o h
new-value_bytes (merit_dump_file o) h = value_arm-decode string_codec merit_dump_file o h
new-value_bytes (domain_name o) h = value_arm-decode string_codec domain_name o h
new-value_bytes (swap_server o) h = value_arm-decode ipv4_codec swap_server o h
new-value_bytes (root_path o) h = value_arm-decode string_codec root_path o h
new-value_bytes (extension_file o) h = value_arm-decode string_codec extension_file o h
new-value_bytes (forward_on_off o) h = value_arm-decode u8_codec forward_on_off o h
new-value_bytes (src_rte_on_off o) h = value_arm-decode u8_codec src_rte_on_off o h
new-value_bytes (policy_filter o) h = value_arm-decode ip_mask_list_codec policy_filter o h
new-value_bytes (max_dg_assembly o) h = value_arm-decode short_codec max_dg_assembly o h
new-value_bytes (default_ip_ttl o) h = value_arm-decode u8_codec default_ip_ttl o h
new-value_bytes (mtu_timeout o) h = value_arm-decode word_codec mtu_timeout o h
new-value_bytes (mtu_plateau o) h = value_arm-decode short_list_codec mtu_plateau o h
new-value_bytes (mtu_interface o) h = value_arm-decode short_codec mtu_interface o h
new-value_bytes (mtu_subnet o) h = value_arm-decode u8_codec mtu_subnet o h
new-value_bytes (broadcast_address o) h = value_arm-decode ipv4_codec broadcast_address o h
new-value_bytes (mask_discovery o) h = value_arm-decode u8_codec mask_discovery o h
new-value_bytes (mask_supplier o) h = value_arm-decode u8_codec mask_supplier o h
new-value_bytes (router_discovery o) h = value_arm-decode u8_codec router_discovery o h
new-value_bytes (router_request o) h = value_arm-decode ipv4_codec router_request o h
new-value_bytes (static_route o) h = value_arm-decode ip_mask_list_codec static_route o h
new-value_bytes (trailers o) h = value_arm-decode u8_codec trailers o h
new-value_bytes (arp_timeout o) h = value_arm-decode word_codec arp_timeout o h
new-value_bytes (ethernet o) h = value_arm-decode u8_codec ethernet o h
new-value_bytes (default_tcp_ttl o) h = value_arm-decode u8_codec default_tcp_ttl o h
new-value_bytes (keepalive_time o) h = value_arm-decode word_codec keepalive_time o h
new-value_bytes (keepalive_data o) h = value_arm-decode u8_codec keepalive_data o h
new-value_bytes (nis_domain o) h = value_arm-decode string_codec nis_domain o h
new-value_bytes (nis_servers o) h = value_arm-decode ip_list_codec nis_servers o h
new-value_bytes (ntp_servers o) h = value_arm-decode ip_list_codec ntp_servers o h
new-value_bytes (vendor_specific o) h = value_arm-decode bytes_codec vendor_specific o h
new-value_bytes (netbios_name_srv o) h = value_arm-decode ip_list_codec netbios_name_srv o h
new-value_bytes (netbios_dist_srv o) h = value_arm-decode ip_list_codec netbios_dist_srv o h
new-value_bytes (netbios_node_type o) h = value_arm-decode u8_codec netbios_node_type o h
new-value_bytes (netbios_scope o) h = value_arm-decode string_codec netbios_scope o h
new-value_bytes (x_window_font o) h = value_arm-decode ip_list_codec x_window_font o h
new-value_bytes (x_window_manager o) h = value_arm-decode ip_list_codec x_window_manager o h
new-value_bytes (address_request o) h = value_arm-decode ipv4_codec address_request o h
new-value_bytes (address_time o) h = value_arm-decode word_codec address_time o h
new-value_bytes (overload o) h = value_arm-decode u8_codec overload o h
new-value_bytes (dhcp_msg_type o) h = value_arm-decode message_type_codec dhcp_msg_type o h
new-value_bytes (dhcp_server_id o) h = value_arm-decode ipv4_codec dhcp_server_id o h
new-value_bytes (parameter_list o) h = value_arm-decode bytes_codec parameter_list o h
new-value_bytes (dhcp_message o) h = value_arm-decode string_codec dhcp_message o h
new-value_bytes (dhcp_max_msg_size o) h = value_arm-decode short_codec dhcp_max_msg_size o h
new-value_bytes (renewal_time o) h = value_arm-decode word_codec renewal_time o h
new-value_bytes (rebinding_time o) h = value_arm-decode word_codec rebinding_time o h
new-value_bytes (class_id o) h = value_arm-decode string_codec class_id o h
new-value_bytes (client_id o) h = value_arm-decode bytes_codec client_id o h
new-value_bytes (nis_domain_name o) h = value_arm-decode string_codec nis_domain_name o h
new-value_bytes (nis_server_addr o) h = value_arm-decode ip_list_codec nis_server_addr o h
new-value_bytes (server_name o) h = value_arm-decode string_codec server_name o h
new-value_bytes (bootfile_name o) h = value_arm-decode string_codec bootfile_name o h
new-value_bytes (home_agent_addrs o) h = value_arm-decode ip_list_codec home_agent_addrs o h
new-value_bytes (smtp_server o) h = value_arm-decode ip_list_codec smtp_server o h
new-value_bytes (pop3_server o) h = value_arm-decode ip_list_codec pop3_server o h
new-value_bytes (nntp_server o) h = value_arm-decode ip_list_codec nntp_server o h
new-value_bytes (www_server o) h = value_arm-decode ip_list_codec www_server o h
new-value_bytes (finger_server o) h = value_arm-decode ip_list_codec finger_server o h
new-value_bytes (irc_server o) h = value_arm-decode ip_list_codec irc_server o h
new-value_bytes (street_talk_server o) h = value_arm-decode ip_list_codec street_talk_server o h
new-value_bytes (stda_server o) h = value_arm-decode ip_list_codec stda_server o h
new-value_bytes (service_location_protocol_naming_authority o) h =
    value_arm-decode bytes_codec service_location_protocol_naming_authority o h
new-value_bytes (client_fully_qualified_domain_name o) h =
    value_arm-decode client_name_codec client_fully_qualified_domain_name o h
new-value_bytes (relay_agent_information o) h =
    value_arm-decode bytes_codec relay_agent_information o h
new-value_bytes (domain_search o) h = value_arm-decode bytes_codec domain_search o h
new-value_bytes end h = refl
