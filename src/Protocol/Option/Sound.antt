-- ===== src/Protocol/Option/Sound.antt =====
-- What `new` answers is an option of the code that was asked for, valid, and not longer on the
-- wire than the data it was made from.
use rsdhcp.Prelude.{
  ==_iff, All, Bool-cases, List, [], arith, inl, inr, length, none, refl, some, ℕ, ◌==◌, ◌∷◌, ◌≡◌,
  ◌≤◌,
}
use rsdhcp.Protocol.Bytes.{IsByte}
use rsdhcp.Protocol.Errors.{>>=-eq-ok, ok, ok-injective}
use rsdhcp.Protocol.Option.{
  DhcpOption, address_request, address_time, arp_timeout, boot_file_size, bootfile_name,
  broadcast_address, class_id, client_fully_qualified_domain_name, client_id, code, default_ip_ttl,
  default_tcp_ttl, dhcp_max_msg_size, dhcp_message, dhcp_msg_type, dhcp_server_id, domain_name,
  domain_search, domain_server, end, ethernet, extension_file, finger_server, forward_on_off,
  home_agent_addrs, hostname, impress_server, irc_server, keepalive_data, keepalive_time,
  log_server, lpr_server, mask_discovery, mask_supplier, max_dg_assembly, merit_dump_file,
  mtu_interface, mtu_plateau, mtu_subnet, mtu_timeout, name_server, netbios_dist_srv,
  netbios_name_srv, netbios_node_type, netbios_scope, nis_domain, nis_domain_name, nis_server_addr,
  nis_servers, nntp_server, ntp_servers, overload, pad, parameter_list, policy_filter, pop3_server,
  quotes_server, rebinding_time, relay_agent_information, renewal_time, rlp_server, root_path,
  router, router_discovery, router_request, server_name, service_location_protocol_naming_authority,
  smtp_server, src_rte_on_off, static_route, stda_server, street_talk_server, subnet_mask,
  swap_server, time_offset, time_server, trailers, vendor_specific, www_server, x_window_font,
  x_window_manager,
}
use rsdhcp.Protocol.Option.Arms.{Arm, match_arms, new, new_arms, unit_arm, value_arm}
use rsdhcp.Protocol.Option.Codec.{IsValid, value_of}
use rsdhcp.Protocol.Option.Wire.{value_bytes}
use rsdhcp.Protocol.Value.{ValueSerde}
use rsdhcp.Protocol.Value.Laws.{IsCodec}
use rsdhcp.Protocol.Value.Numbers.{
  bytes_codec, short_codec, short_list_codec, signed_codec, u8_codec, word_codec,
}
use rsdhcp.Protocol.Value.Structures.{
  client_name_codec, ip_list_codec, ip_mask_list_codec, ipv4_codec, message_type_codec,
  string_codec,
}

abbrev pub Decoded : ℕ → List ℕ → DhcpOption → Type 0
Decoded c bytes o = (code o ≡ c) × IsValid o × (length (value_of (value_bytes o)) ≤ length bytes)

record IsSound (arm : Arm) : Type 0 where
  at :
      (bytes : List ℕ) (o : DhcpOption)
      → All IsByte bytes
      → arm.decode bytes ≡ ok o
      → Decoded arm.arm_code bytes o

-- The constructor of an arm fits its code and its value type.
abbrev Fits : {A : Type 0} → ℕ → (A → DhcpOption) → ValueSerde A → (A → Type 0) → Type 0
Fits {A} c con s Valid =
    (a : A)
    → Valid a
    → (code (con a) ≡ c) × IsValid (con a) × (value_bytes (con a) ≡ some (s.to_network a))

value_arm_decodes :
    {A : Type 0} {s : ValueSerde A} {Valid : A → Type 0} (codec : IsCodec s Valid) (c : ℕ)
    (con : A → DhcpOption)
    → Fits c con s Valid
    → IsSound (value_arm c con s)
value_arm_decodes {s = s} codec c con fits = record {
  at = λ bytes o h e.
      let (a, decoded, made) = >>=-eq-ok (s.from_network bytes) (λ v. ok (con v)) e in
      let (same, valid, value) = fits a (codec.decode-Valid bytes a h decoded) in
      ground (arith, made, same, valid, value, codec.encode-length bytes a decoded);
}

unit_arm_decodes :
    (c : ℕ) (o : DhcpOption)
    → (code o ≡ c) × IsValid o
    → value_bytes o ≡ none
    → IsSound (unit_arm c o)
unit_arm_decodes c o fits bare = record {
  at = λ bytes o' h e. rw (← ok-injective e) (fits.0, fits.1, rw bare (omega arith));
}

-- Every arm of a list decodes soundly.
data AllSound : List Arm → Type 0 where
  no_arms : AllSound []
  ◌▸◌ : {arm : Arm} {arms : List Arm} → IsSound arm → AllSound arms → AllSound (arm ∷ arms)

infixr 5 ◌▸◌
new_arms_decode : AllSound new_arms
unfolding code value_bytes
new_arms_decode =
    unit_arm_decodes 0 pad (refl, tt) refl
    ▸ value_arm_decodes ipv4_codec 1 subnet_mask (λ a h. (refl, h, refl))
    ▸ value_arm_decodes signed_codec 2 time_offset (λ a h. (refl, h, refl))
    ▸ value_arm_decodes ip_list_codec 3 router (λ a h. (refl, h, refl))
    ▸ value_arm_decodes ip_list_codec 4 time_server (λ a h. (refl, h, refl))
    ▸ value_arm_decodes ip_list_codec 5 name_server (λ a h. (refl, h, refl))
    ▸ value_arm_decodes ip_list_codec 6 domain_server (λ a h. (refl, h, refl))
    ▸ value_arm_decodes ip_list_codec 7 log_server (λ a h. (refl, h, refl))
    ▸ value_arm_decodes ip_list_codec 8 quotes_server (λ a h. (refl, h, refl))
    ▸ value_arm_decodes ip_list_codec 9 lpr_server (λ a h. (refl, h, refl))
    ▸ value_arm_decodes ip_list_codec 10 impress_server (λ a h. (refl, h, refl))
    ▸ value_arm_decodes ip_list_codec 11 rlp_server (λ a h. (refl, h, refl))
    ▸ value_arm_decodes string_codec 12 hostname (λ a h. (refl, h, refl))
    ▸ value_arm_decodes short_codec 13 boot_file_size (λ a h. (refl, h, refl))
    ▸ value_arm_decodes string_codec 14 merit_dump_file (λ a h. (refl, h, refl))
    ▸ value_arm_decodes string_codec 15 domain_name (λ a h. (refl, h, refl))
    ▸ value_arm_decodes ipv4_codec 16 swap_server (λ a h. (refl, h, refl))
    ▸ value_arm_decodes string_codec 17 root_path (λ a h. (refl, h, refl))
    ▸ value_arm_decodes string_codec 18 extension_file (λ a h. (refl, h, refl))
    ▸ value_arm_decodes u8_codec 19 forward_on_off (λ a h. (refl, h, refl))
    ▸ value_arm_decodes u8_codec 20 src_rte_on_off (λ a h. (refl, h, refl))
    ▸ value_arm_decodes ip_mask_list_codec 21 policy_filter (λ a h. (refl, h, refl))
    ▸ value_arm_decodes short_codec 22 max_dg_assembly (λ a h. (refl, h, refl))
    ▸ value_arm_decodes u8_codec 23 default_ip_ttl (λ a h. (refl, h, refl))
    ▸ value_arm_decodes word_codec 24 mtu_timeout (λ a h. (refl, h, refl))
    ▸ value_arm_decodes short_list_codec 25 mtu_plateau (λ a h. (refl, h, refl))
    ▸ value_arm_decodes short_codec 26 mtu_interface (λ a h. (refl, h, refl))
    ▸ value_arm_decodes u8_codec 27 mtu_subnet (λ a h. (refl, h, refl))
    ▸ value_arm_decodes ipv4_codec 28 broadcast_address (λ a h. (refl, h, refl))
    ▸ value_arm_decodes u8_codec 29 mask_discovery (λ a h. (refl, h, refl))
    ▸ value_arm_decodes u8_codec 30 mask_supplier (λ a h. (refl, h, refl))
    ▸ value_arm_decodes u8_codec 31 router_discovery (λ a h. (refl, h, refl))
    ▸ value_arm_decodes ipv4_codec 32 router_request (λ a h. (refl, h, refl))
    ▸ value_arm_decodes ip_mask_list_codec 33 static_route (λ a h. (refl, h, refl))
    ▸ value_arm_decodes u8_codec 34 trailers (λ a h. (refl, h, refl))
    ▸ value_arm_decodes word_codec 35 arp_timeout (λ a h. (refl, h, refl))
    ▸ value_arm_decodes u8_codec 36 ethernet (λ a h. (refl, h, refl))
    ▸ value_arm_decodes u8_codec 37 default_tcp_ttl (λ a h. (refl, h, refl))
    ▸ value_arm_decodes word_codec 38 keepalive_time (λ a h. (refl, h, refl))
    ▸ value_arm_decodes u8_codec 39 keepalive_data (λ a h. (refl, h, refl))
    ▸ value_arm_decodes string_codec 40 nis_domain (λ a h. (refl, h, refl))
    ▸ value_arm_decodes ip_list_codec 41 nis_servers (λ a h. (refl, h, refl))
    ▸ value_arm_decodes ip_list_codec 42 ntp_servers (λ a h. (refl, h, refl))
    ▸ value_arm_decodes bytes_codec 43 vendor_specific (λ a h. (refl, h, refl))
    ▸ value_arm_decodes ip_list_codec 44 netbios_name_srv (λ a h. (refl, h, refl))
    ▸ value_arm_decodes ip_list_codec 45 netbios_dist_srv (λ a h. (refl, h, refl))
    ▸ value_arm_decodes u8_codec 46 netbios_node_type (λ a h. (refl, h, refl))
    ▸ value_arm_decodes string_codec 47 netbios_scope (λ a h. (refl, h, refl))
    ▸ value_arm_decodes ip_list_codec 48 x_window_font (λ a h. (refl, h, refl))
    ▸ value_arm_decodes ip_list_codec 49 x_window_manager (λ a h. (refl, h, refl))
    ▸ value_arm_decodes ipv4_codec 50 address_request (λ a h. (refl, h, refl))
    ▸ value_arm_decodes word_codec 51 address_time (λ a h. (refl, h, refl))
    ▸ value_arm_decodes u8_codec 52 overload (λ a h. (refl, h, refl))
    ▸ value_arm_decodes message_type_codec 53 dhcp_msg_type (λ a h. (refl, h, refl))
    ▸ value_arm_decodes ipv4_codec 54 dhcp_server_id (λ a h. (refl, h, refl))
    ▸ value_arm_decodes bytes_codec 55 parameter_list (λ a h. (refl, h, refl))
    ▸ value_arm_decodes string_codec 56 dhcp_message (λ a h. (refl, h, refl))
    ▸ value_arm_decodes short_codec 57 dhcp_max_msg_size (λ a h. (refl, h, refl))
    ▸ value_arm_decodes word_codec 58 renewal_time (λ a h. (refl, h, refl))
    ▸ value_arm_decodes word_codec 59 rebinding_time (λ a h. (refl, h, refl))
    ▸ value_arm_decodes string_codec 60 class_id (λ a h. (refl, h, refl))
    ▸ value_arm_decodes bytes_codec 61 client_id (λ a h. (refl, h, refl))
    ▸ value_arm_decodes string_codec 64 nis_domain_name (λ a h. (refl, h, refl))
    ▸ value_arm_decodes ip_list_codec 65 nis_server_addr (λ a h. (refl, h, refl))
    ▸ value_arm_decodes string_codec 66 server_name (λ a h. (refl, h, refl))
    ▸ value_arm_decodes string_codec 67 bootfile_name (λ a h. (refl, h, refl))
    ▸ value_arm_decodes ip_list_codec 68 home_agent_addrs (λ a h. (refl, h, refl))
    ▸ value_arm_decodes ip_list_codec 69 smtp_server (λ a h. (refl, h, refl))
    ▸ value_arm_decodes ip_list_codec 70 pop3_server (λ a h. (refl, h, refl))
    ▸ value_arm_decodes ip_list_codec 71 nntp_server (λ a h. (refl, h, refl))
    ▸ value_arm_decodes ip_list_codec 72 www_server (λ a h. (refl, h, refl))
    ▸ value_arm_decodes ip_list_codec 73 finger_server (λ a h. (refl, h, refl))
    ▸ value_arm_decodes ip_list_codec 74 irc_server (λ a h. (refl, h, refl))
    ▸ value_arm_decodes ip_list_codec 75 street_talk_server (λ a h. (refl, h, refl))
    ▸ value_arm_decodes ip_list_codec 76 stda_server (λ a h. (refl, h, refl))
    ▸ value_arm_decodes bytes_codec 80 service_location_protocol_naming_authority
        (λ a h. (refl, h, refl))
    ▸ value_arm_decodes client_name_codec 81 client_fully_qualified_domain_name
        (λ a h. (refl, h, refl))
    ▸ value_arm_decodes bytes_codec 82 relay_agent_information (λ a h. (refl, h, refl))
    ▸ value_arm_decodes bytes_codec 119 domain_search (λ a h. (refl, h, refl))
    ▸ unit_arm_decodes 255 end (refl, tt) refl
    ▸ no_arms

match_arms_decode :
    {arms : List Arm}
    → AllSound arms
    → (c : ℕ) (bytes : List ℕ) (o : DhcpOption) → All IsByte bytes
    → match_arms arms c bytes ≡ ok o
    → Decoded c bytes o
unfolding match_arms
match_arms_decode no_arms c bytes o h e = cc
match_arms_decode (◌▸◌ {arm} {arms} first rest) c bytes o h e =
    elim (Bool-cases (c == arm.arm_code)) [
      | inl t ↦ rw ((==_iff c arm.arm_code).0 t) (first.at bytes o h (rw t at e))
      | inr f ↦ match_arms_decode rest c bytes o h (rw f at e)
    ]

-- Whatever the bytes, a decoded option has the code that was asked for, a value of its type, and
-- no more value bytes than it was decoded from.
pub new-Decoded :
    (c : ℕ) (bytes : List ℕ) (o : DhcpOption)
    → All IsByte bytes
    → new c bytes ≡ ok o
    → Decoded c bytes o
unfolding new
new-Decoded c bytes o h e = match_arms_decode new_arms_decode c bytes o h e
