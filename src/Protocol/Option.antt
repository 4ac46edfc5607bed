-- ===== src/Protocol/Option.antt =====
-- The `DhcpOption` enum of rsdhcp/src/protocol/option.rs, one constructor for each variant, and
-- the option codes of its `#[code(..)]` attributes.
pub mod Wire
pub mod Arms
pub mod Codec
pub mod Octets
pub mod Sound
use rsdhcp.Prelude.{List, ℕ}
use rsdhcp.Prelude.Int.{ℤ}
use rsdhcp.Protocol.Enums.{MessageType}
use rsdhcp.Protocol.Value.{ClientFqdn, Ipv4Addr}

-- The variants, in groups of one value type. The order of the declaration is that of `code`.
pub data DhcpOption : Type 0 where
  pad end : DhcpOption
  subnet_mask swap_server broadcast_address router_request : Ipv4Addr → DhcpOption
  address_request dhcp_server_id : Ipv4Addr → DhcpOption
  router time_server name_server domain_server log_server : List Ipv4Addr → DhcpOption
  quotes_server lpr_server impress_server rlp_server nis_servers : List Ipv4Addr → DhcpOption
  ntp_servers netbios_name_srv netbios_dist_srv x_window_font : List Ipv4Addr → DhcpOption
  x_window_manager nis_server_addr home_agent_addrs smtp_server : List Ipv4Addr → DhcpOption
  pop3_server nntp_server www_server finger_server irc_server : List Ipv4Addr → DhcpOption
  street_talk_server stda_server : List Ipv4Addr → DhcpOption
  policy_filter static_route : List (Ipv4Addr × Ipv4Addr) → DhcpOption
  hostname merit_dump_file domain_name root_path extension_file : List ℕ → DhcpOption
  nis_domain netbios_scope dhcp_message class_id nis_domain_name : List ℕ → DhcpOption
  server_name bootfile_name : List ℕ → DhcpOption
  forward_on_off src_rte_on_off default_ip_ttl mtu_subnet mask_discovery : ℕ → DhcpOption
  mask_supplier router_discovery trailers ethernet default_tcp_ttl : ℕ → DhcpOption
  keepalive_data netbios_node_type overload : ℕ → DhcpOption
  boot_file_size max_dg_assembly mtu_interface dhcp_max_msg_size : ℕ → DhcpOption
  mtu_plateau : List ℕ → DhcpOption
  mtu_timeout arp_timeout keepalive_time address_time renewal_time : ℕ → DhcpOption
  rebinding_time : ℕ → DhcpOption
  time_offset : ℤ → DhcpOption
  vendor_specific parameter_list client_id : List ℕ → DhcpOption
  service_location_protocol_naming_authority relay_agent_information : List ℕ → DhcpOption
  domain_search : List ℕ → DhcpOption
  dhcp_msg_type : MessageType → DhcpOption
  client_fully_qualified_domain_name : ClientFqdn → DhcpOption

-- `code` of the derived code: the match of `to_code_matches`.
unfoldable pub code : DhcpOption → ℕ
code pad = 0
code (subnet_mask _) = 1
code (time_offset _) = 2
code (router _) = 3
code (time_server _) = 4
code (name_server _) = 5
code (domain_server _) = 6
code (log_server _) = 7
code (quotes_server _) = 8
code (lpr_server _) = 9
code (impress_server _) = 10
code (rlp_server _) = 11
code (hostname _) = 12
code (boot_file_size _) = 13
code (merit_dump_file _) = 14
code (domain_name _) = 15
code (swap_server _) = 16
code (root_path _) = 17
code (extension_file _) = 18
code (forward_on_off _) = 19
code (src_rte_on_off _) = 20
code (policy_filter _) = 21
code (max_dg_assembly _) = 22
code (default_ip_ttl _) = 23
code (mtu_timeout _) = 24
code (mtu_plateau _) = 25
code (mtu_interface _) = 26
code (mtu_subnet _) = 27
code (broadcast_address _) = 28
code (mask_discovery _) = 29
code (mask_supplier _) = 30
code (router_discovery _) = 31
code (router_request _) = 32
code (static_route _) = 33
code (trailers _) = 34
code (arp_timeout _) = 35
code (ethernet _) = 36
code (default_tcp_ttl _) = 37
code (keepalive_time _) = 38
code (keepalive_data _) = 39
code (nis_domain _) = 40
code (nis_servers _) = 41
code (ntp_servers _) = 42
code (vendor_specific _) = 43
code (netbios_name_srv _) = 44
code (netbios_dist_srv _) = 45
code (netbios_node_type _) = 46
code (netbios_scope _) = 47
code (x_window_font _) = 48
code (x_window_manager _) = 49
code (address_request _) = 50
code (address_time _) = 51
code (overload _) = 52
code (dhcp_msg_type _) = 53
code (dhcp_server_id _) = 54
code (parameter_list _) = 55
code (dhcp_message _) = 56
code (dhcp_max_msg_size _) = 57
code (renewal_time _) = 58
code (rebinding_time _) = 59
code (class_id _) = 60
code (client_id _) = 61
code (nis_domain_name _) = 64
code (nis_server_addr _) = 65
code (server_name _) = 66
code (bootfile_name _) = 67
code (home_agent_addrs _) = 68
code (smtp_server _) = 69
code (pop3_server _) = 70
code (nntp_server _) = 71
code (www_server _) = 72
code (finger_server _) = 73
code (irc_server _) = 74
code (street_talk_server _) = 75
code (stda_server _) = 76
code (service_location_protocol_naming_authority _) = 80
code (client_fully_qualified_domain_name _) = 81
code (relay_agent_information _) = 82
code (domain_search _) = 119
code end = 255

-- The derived constants that the source names.
abbrev pub subnet_mask_code : ℕ
subnet_mask_code = 1

abbrev pub router_code : ℕ
router_code = 3

abbrev pub domain_server_code : ℕ
domain_server_code = 6

abbrev pub hostname_code : ℕ
hostname_code = 12

abbrev pub domain_name_code : ℕ
domain_name_code = 15

abbrev pub address_request_code : ℕ
address_request_code = 50

abbrev pub address_time_code : ℕ
address_time_code = 51

abbrev pub dhcp_msg_type_code : ℕ
dhcp_msg_type_code = 53

abbrev pub dhcp_server_id_code : ℕ
dhcp_server_id_code = 54

abbrev pub parameter_list_code : ℕ
parameter_list_code = 55

abbrev pub dhcp_max_msg_size_code : ℕ
dhcp_max_msg_size_code = 57

abbrev pub client_id_code : ℕ
client_id_code = 61

abbrev pub domain_search_code : ℕ
domain_search_code = 119
