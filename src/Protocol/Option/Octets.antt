-- ===== src/Protocol/Option/Octets.antt =====
-- The wire form of a valid option is made of bytes.
use rsdhcp.Prelude.{All}
use rsdhcp.Protocol.Bytes.{IsByte}
use rsdhcp.Protocol.Option.{
  DhcpOption, address_request, address_time, arp_timeout, boot_file_size, bootfile_name,
  broadcast_address, class_id, client_fully_qualified_domain_name, client_id, default_ip_ttl,
  default_tcp_ttl, dhcp_max_msg_size, dhcp_message, dhcp_msg_type, dhcp_server_id, domain_name,
  domain_search, domain_server, end, ethernet, extension_file, finger_server, forward_on_off,
  home_agent_addrs, hostname, impress_server, irc_server, keepalive_data, keepalive_time,
  log_server, lpr_server, mask_discovery, mask_supplier, max_dg_assembly, merit_dump_file,
  mtu_interface, mtu_plateau, mtu_subnet, mtu_timeout, name_server, netbios_dist_srv,
  netbios_name_srv, netbios_node_type, netbios_scope, nis_domain, nis_domain_name, nis_server_addr,
  nis_servers, nntp_server, ntp_servers, overload, pad, parameter_list, policy_filter, pop3_server,
  quotes_server, rebinding_time, relay_agent_information, renewal_time, rlp_server, root_path,
  router, router_discovery, router_request, server_name, service_location_protocol_naming_authority,
  smtp_server, src_rte_on_off, static_route, stda_server, street_talk_server, subnet_mask,
  swap_server, time_offset, time_server, trailers, vendor_specific, www_server, x_window_font,
  x_window_manager,
}
use rsdhcp.Protocol.Option.Codec.{IsValid, value_of}
use rsdhcp.Protocol.Option.Wire.{value_bytes}
use rsdhcp.Protocol.Value.Numbers.{
  bytes_codec, signed_codec, short_codec, short_list_codec, word_codec, u8_codec,
}
use rsdhcp.Protocol.Value.Structures.{
  client_name_codec, ip_list_codec, ip_mask_list_codec, ipv4_codec, message_type_codec,
  string_codec,
}

-- The value bytes of a valid option are bytes.
pub value_bytes-IsByte : (o : DhcpOption) → IsValid o → All IsByte (value_of (value_bytes o))
unfolding value_bytes
value_bytes-IsByte pad h = tt
value_bytes-IsByte (subnet_mask o) h = ipv4_codec.encode-IsByte o h
value_bytes-IsByte (time_offset o) h = signed_codec.encode-IsByte o h
value_bytes-IsByte (router o) h = ip_list_codec.encode-IsByte o h
value_bytes-IsByte (time_server o) h = ip_list_codec.encode-IsByte o h
value_bytes-IsByte (name_server o) h = ip_list_codec.encode-IsByte o h
value_bytes-IsByte (domain_server o) h = ip_list_codec.encode-IsByte o h
value_bytes-IsByte (log_server o) h = ip_list_codec.encode-IsByte o h
value_bytes-IsByte (quotes_server o) h = ip_list_codec.encode-IsByte o h
value_bytes-IsByte (lpr_server o) h = ip_list_codec.encode-IsByte o h
value_bytes-IsByte (impress_server o) h = ip_list_codec.encode-IsByte o h
value_bytes-IsByte (rlp_server o) h = ip_list_codec.encode-IsByte o h
value_bytes-IsByte (hostname o) h = string_codec.encode-IsByte o h
value_bytes-IsByte (boot_file_size o) h = short_codec.encode-IsByte o h
value_bytes-IsByte (merit_dump_file o) h = string_codec.encode-IsByte o h
value_bytes-IsByte (domain_name o) h = string_codec.encode-IsByte o h
value_bytes-IsByte (swap_server o) h = ipv4_codec.encode-IsByte o h
value_bytes-IsByte (root_path o) h = string_codec.encode-IsByte o h
value_bytes-IsByte (extension_file o) h = string_codec.encode-IsByte o h
value_bytes-IsByte (forward_on_off o) h = u8_codec.encode-IsByte o h
value_bytes-IsByte (src_rte_on_off o) h = u8_codec.encode-IsByte o h
value_bytes-IsByte (policy_filter o) h = ip_mask_list_codec.encode-IsByte o h
value_bytes-IsByte (max_dg_assembly o) h = short_codec.encode-IsByte o h
value_bytes-IsByte (default_ip_ttl o) h = u8_codec.encode-IsByte o h
value_bytes-IsByte (mtu_timeout o) h = word_codec.encode-IsByte o h
value_bytes-IsByte (mtu_plateau o) h = short_list_codec.encode-IsByte o h
value_bytes-IsByte (mtu_interface o) h = short_codec.encode-IsByte o h
value_bytes-IsByte (mtu_subnet o) h = u8_codec.encode-IsByte o h
value_bytes-IsByte (broadcast_address o) h = ipv4_codec.encode-IsByte o h
value_bytes-IsByte (mask_discovery o) h = u8_codec.encode-IsByte o h
value_bytes-IsByte (mask_supplier o) h = u8_codec.encode-IsByte o h
value_bytes-IsByte (router_discovery o) h = u8_codec.encode-IsByte o h
value_bytes-IsByte (router_request o) h = ipv4_codec.encode-IsByte o h
value_bytes-IsByte (static_route o) h = ip_mask_list_codec.encode-IsByte o h
value_bytes-IsByte (trailers o) h = u8_codec.encode-IsByte o h
value_bytes-IsByte (arp_timeout o) h = word_codec.encode-IsByte o h
value_bytes-IsByte (ethernet o) h = u8_codec.encode-IsByte o h
value_bytes-IsByte (default_tcp_ttl o) h = u8_codec.encode-IsByte o h
value_bytes-IsByte (keepalive_time o) h = word_codec.encode-IsByte o h
value_bytes-IsByte (keepalive_data o) h = u8_codec.encode-IsByte o h
value_bytes-IsByte (nis_domain o) h = string_codec.encode-IsByte o h
value_bytes-IsByte (nis_servers o) h = ip_list_codec.encode-IsByte o h
value_bytes-IsByte (ntp_servers o) h = ip_list_codec.encode-IsByte o h
value_bytes-IsByte (vendor_specific o) h = bytes_codec.encode-IsByte o h
value_bytes-IsByte (netbios_name_srv o) h = ip_list_codec.encode-IsByte o h
value_bytes-IsByte (netbios_dist_srv o) h = ip_list_codec.encode-IsByte o h
value_bytes-IsByte (netbios_node_type o) h = u8_codec.encode-IsByte o h
value_bytes-IsByte (netbios_scope o) h = string_codec.encode-IsByte o h
value_bytes-IsByte (x_window_font o) h = ip_list_codec.encode-IsByte o h
value_bytes-IsByte (x_window_manager o) h = ip_list_codec.encode-IsByte o h
value_bytes-IsByte (address_request o) h = ipv4_codec.encode-IsByte o h
value_bytes-IsByte (address_time o) h = word_codec.encode-IsByte o h
value_bytes-IsByte (overload o) h = u8_codec.encode-IsByte o h
value_bytes-IsByte (dhcp_msg_type o) h = message_type_codec.encode-IsByte o h
value_bytes-IsByte (dhcp_server_id o) h = ipv4_codec.encode-IsByte o h
value_bytes-IsByte (parameter_list o) h = bytes_codec.encode-IsByte o h
value_bytes-IsByte (dhcp_message o) h = string_codec.encode-IsByte o h
value_bytes-IsByte (dhcp_max_msg_size o) h = short_codec.encode-IsByte o h
value_bytes-IsByte (renewal_time o) h = word_codec.encode-IsByte o h
value_bytes-IsByte (rebinding_time o) h = word_codec.encode-IsByte o h
value_bytes-IsByte (class_id o) h = string_codec.encode-IsByte o h
value_bytes-IsByte (client_id o) h = bytes_codec.encode-IsByte o h
value_bytes-IsByte (nis_domain_name o) h = string_codec.encode-IsByte o h
value_bytes-IsByte (nis_server_addr o) h = ip_list_codec.encode-IsByte o h
value_bytes-IsByte (server_name o) h = string_codec.encode-IsByte o h
value_bytes-IsByte (bootfile_name o) h = string_codec.encode-IsByte o h
value_bytes-IsByte (home_agent_addrs o) h = ip_list_codec.encode-IsByte o h
value_bytes-IsByte (smtp_server o) h = ip_list_codec.encode-IsByte o h
value_bytes-IsByte (pop3_server o) h = ip_list_codec.encode-IsByte o h
value_bytes-IsByte (nntp_server o) h = ip_list_codec.encode-IsByte o h
value_bytes-IsByte (www_server o) h = ip_list_codec.encode-IsByte o h
value_bytes-IsByte (finger_server o) h = ip_list_codec.encode-IsByte o h
value_bytes-IsByte (irc_server o) h = ip_list_codec.encode-IsByte o h
value_bytes-IsByte (street_talk_server o) h = ip_list_codec.encode-IsByte o h
value_bytes-IsByte (stda_server o) h = ip_list_codec.encode-IsByte o h
value_bytes-IsByte (service_location_protocol_naming_authority o) h = bytes_codec.encode-IsByte o h
value_bytes-IsByte (client_fully_qualified_domain_name o) h = client_name_codec.encode-IsByte o h
value_bytes-IsByte (relay_agent_information o) h = bytes_codec.encode-IsByte o h
value_bytes-IsByte (domain_search o) h = bytes_codec.encode-IsByte o h
value_bytes-IsByte end h = tt
