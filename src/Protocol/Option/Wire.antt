-- ===== src/Protocol/Option/Wire.antt =====
-- The derived `to_network` of `DhcpOption` (rsdhcp_macros/src/lib.rs): code, length and value.
use rsdhcp.Prelude.{List, Option, [], length, none, some, ℕ, ◌%◌, ◌∷◌}
use rsdhcp.Protocol.Option.{
  DhcpOption, address_request, address_time, arp_timeout, boot_file_size, bootfile_name,
  broadcast_address, class_id, client_fully_qualified_domain_name, client_id, code, default_ip_ttl,
  default_tcp_ttl, dhcp_max_msg_size, dhcp_message, dhcp_msg_type, dhcp_server_id, domain_name,
  domain_search, domain_server, end, ethernet, extension_file, finger_server, forward_on_off,
  home_agent_addrs, hostname, impress_server, irc_server, keepalive_data, keepalive_time,
  log_server, lpr_server, mask_discovery, mask_supplier, max_dg_assembly, merit_dump_file,
  mtu_interface, mtu_plateau, mtu_subnet, mtu_timeout, name_server, netbios_dist_srv,
  netbios_name_srv, netbios_node_type, netbios_scope, nis_domain, nis_domain_name, nis_server_addr,
  nis_servers, nntp_server, ntp_servers, overload, pad, parameter_list, policy_filter, pop3_server,
  quotes_server, rebinding_time, relay_agent_information, renewal_time, rlp_server, root_path,
  router, router_discovery, router_request, server_name, service_location_protocol_naming_authority,
  smtp_server, src_rte_on_off, static_route, stda_server, street_talk_server, subnet_mask,
  swap_server, time_offset, time_server, trailers, vendor_specific, www_server, x_window_font,
  x_window_manager,
}
use rsdhcp.Protocol.Value.{
  bytes_to_network, client_fqdn_to_network, i32_to_network, ip_list_to_network,
  ip_mask_list_to_network, ipv4_to_network, message_type_to_network, string_to_network,
  u16_list_to_network, u16_to_network, u32_to_network, u8_to_network,
}

-- The match of `to_network_matches`: the value's bytes, by its type's `ValueSerde`.
unfoldable pub value_bytes : DhcpOption → Option (List ℕ)
value_bytes pad = none
value_bytes (subnet_mask o) = some (ipv4_to_network o)
value_bytes (time_offset o) = some (i32_to_network o)
value_bytes (router o) = some (ip_list_to_network o)
value_bytes (time_server o) = some (ip_list_to_network o)
value_bytes (name_server o) = some (ip_list_to_network o)
value_bytes (domain_server o) = some (ip_list_to_network o)
value_bytes (log_server o) = some (ip_list_to_network o)
value_bytes (quotes_server o) = some (ip_list_to_network o)
value_bytes (lpr_server o) = some (ip_list_to_network o)
value_bytes (impress_server o) = some (ip_list_to_network o)
value_bytes (rlp_server o) = some (ip_list_to_network o)
value_bytes (hostname o) = some (string_to_network o)
value_bytes (boot_file_size o) = some (u16_to_network o)
value_bytes (merit_dump_file o) = some (string_to_network o)
value_bytes (domain_name o) = some (string_to_network o)
value_bytes (swap_server o) = some (ipv4_to_network o)
value_bytes (root_path o) = some (string_to_network o)
value_bytes (extension_file o) = some (string_to_network o)
value_bytes (forward_on_off o) = some (u8_to_network o)
value_bytes (src_rte_on_off o) = some (u8_to_network o)
value_bytes (policy_filter o) = some (ip_mask_list_to_network o)
value_bytes (max_dg_assembly o) = some (u16_to_network o)
value_bytes (default_ip_ttl o) = some (u8_to_network o)
value_bytes (mtu_timeout o) = some (u32_to_network o)
value_bytes (mtu_plateau o) = some (u16_list_to_network o)
value_bytes (mtu_interface o) = some (u16_to_network o)
value_bytes (mtu_subnet o) = some (u8_to_network o)
value_bytes (broadcast_address o) = some (ipv4_to_network o)
value_bytes (mask_discovery o) = some (u8_to_network o)
value_bytes (mask_supplier o) = some (u8_to_network o)
value_bytes (router_discovery o) = some (u8_to_network o)
value_bytes (router_request o) = some (ipv4_to_network o)
value_bytes (static_route o) = some (ip_mask_list_to_network o)
value_bytes (trailers o) = some (u8_to_network o)
value_bytes (arp_timeout o) = some (u32_to_network o)
value_bytes (ethernet o) = some (u8_to_network o)
value_bytes (default_tcp_ttl o) = some (u8_to_network o)
value_bytes (keepalive_time o) = some (u32_to_network o)
value_bytes (keepalive_data o) = some (u8_to_network o)
value_bytes (nis_domain o) = some (string_to_network o)
value_bytes (nis_servers o) = some (ip_list_to_network o)
value_bytes (ntp_servers o) = some (ip_list_to_network o)
value_bytes (vendor_specific o) = some (bytes_to_network o)
value_bytes (netbios_name_srv o) = some (ip_list_to_network o)
value_bytes (netbios_dist_srv o) = some (ip_list_to_network o)
value_bytes (netbios_node_type o) = some (u8_to_network o)
value_bytes (netbios_scope o) = some (string_to_network o)
value_bytes (x_window_font o) = some (ip_list_to_network o)
value_bytes (x_window_manager o) = some (ip_list_to_network o)
value_bytes (address_request o) = some (ipv4_to_network o)
value_bytes (address_time o) = some (u32_to_network o)
value_bytes (overload o) = some (u8_to_network o)
value_bytes (dhcp_msg_type o) = some (message_type_to_network o)
value_bytes (dhcp_server_id o) = some (ipv4_to_network o)
value_bytes (parameter_list o) = some (bytes_to_network o)
value_bytes (dhcp_message o) = some (string_to_network o)
value_bytes (dhcp_max_msg_size o) = some (u16_to_network o)
value_bytes (renewal_time o) = some (u32_to_network o)
value_bytes (rebinding_time o) = some (u32_to_network o)
value_bytes (class_id o) = some (string_to_network o)
value_bytes (client_id o) = some (bytes_to_network o)
value_bytes (nis_domain_name o) = some (string_to_network o)
value_bytes (nis_server_addr o) = some (ip_list_to_network o)
value_bytes (server_name o) = some (string_to_network o)
value_bytes (bootfile_name o) = some (string_to_network o)
value_bytes (home_agent_addrs o) = some (ip_list_to_network o)
value_bytes (smtp_server o) = some (ip_list_to_network o)
value_bytes (pop3_server o) = some (ip_list_to_network o)
value_bytes (nntp_server o) = some (ip_list_to_network o)
value_bytes (www_server o) = some (ip_list_to_network o)
value_bytes (finger_server o) = some (ip_list_to_network o)
value_bytes (irc_server o) = some (ip_list_to_network o)
value_bytes (street_talk_server o) = some (ip_list_to_network o)
value_bytes (stda_server o) = some (ip_list_to_network o)
value_bytes (service_location_protocol_naming_authority o) = some (bytes_to_network o)
value_bytes (client_fully_qualified_domain_name o) = some (client_fqdn_to_network o)
value_bytes (relay_agent_information o) = some (bytes_to_network o)
value_bytes (domain_search o) = some (bytes_to_network o)
value_bytes end = none

-- `b.len() as u8` keeps the low eight bits of the length.
unfoldable pub framed : ℕ → Option (List ℕ) → List ℕ
framed c (some b) = c ∷ (length b % 256) ∷ b
framed c none = c ∷ []

unfoldable pub to_network : DhcpOption → List ℕ
unfolding framed
to_network o = framed (code o) (value_bytes o)
