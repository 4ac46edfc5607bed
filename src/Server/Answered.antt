-- ===== src/Server/Answered.antt =====
-- The datagrams that the server answers.
use rsdhcp.Backends.{BackendResult, DhcpStore, Lease, granted, lease_mismatch_client_ip, refused}
use rsdhcp.External.{ByteOrder, Chrono, Ipnet}
use rsdhcp.Prelude.{
  ==_no, ==_yes, Bool-cases, List, Option, false, if◌then◌else◌, inl, inr, none, not, refl, some,
  sym, true, ℕ, ◌∙◌, ◌≡◌, ◌≢◌, ◌⊎◌,
}
use rsdhcp.Protocol.Enums.{MessageType, dhcp_client_port, dhcp_server_port, neg_acknowledge}
use rsdhcp.Protocol.Errors.{ok}
use rsdhcp.Protocol.Option.{DhcpOption, dhcp_server_id, dhcp_server_id_code}
use rsdhcp.Protocol.Options.{get_option}
use rsdhcp.Protocol.Packet.{
  DhcpPacket, from_network, is_unspecified, message_type, return_broadcast, to_network,
}
use rsdhcp.Protocol.Packet.Reply.{nak, response}
use rsdhcp.Protocol.Packet.Reply.Owed.{
  IsAsked, asked_discover, asked_inform, asked_request, nak-IsNakTo, response-IsResponseTo,
}
use rsdhcp.Protocol.Value.{Ipv4Addr}
use rsdhcp.Server.{
  Datagram, SocketAddr, broadcast_ip, determine_response_dest, find_lease, for_another_server,
  is_nak, make_reply, process_message, process_packet, process_packet_data, send_reply,
  sent_to_broadcast,
}

-- No other server is named.
for_this_server :
    (o : Option DhcpOption) (recv_ip : Ipv4Addr)
    → ((ip : Ipv4Addr) → o ≡ some (dhcp_server_id ip) → ip ≡ recv_ip)
    → for_another_server o recv_ip ≡ false
for_this_server none recv_ip h = refl
for_this_server (some (dhcp_server_id ip)) recv_ip h = rw (==_yes (h ip refl)) refl
for_this_server (some _) recv_ip h = refl

abbrev port_of_client : Ipv4Addr → SocketAddr
port_of_client ip = record { ip = ip; port = dhcp_client_port }

-- A reply with an address and a NAK can go somewhere.
has_destination :
    (p r : DhcpPacket)
    → (r.yiaddr ≢ 0) ⊎ (message_type r ≡ some neg_acknowledge)
    → (dest : SocketAddr) × (determine_response_dest p r ≡ ok dest)
unfolding determine_response_dest
has_destination p r h = elim (Bool-cases (is_unspecified p.giaddr)) [
  | inr relay ↦ (record { ip = p.giaddr; port = dhcp_server_port }, rw (relay) refl)
  | inl direct ↦ elim (Bool-cases (is_nak (message_type r))) [
    | inl nak_type ↦ (port_of_client broadcast_ip, rw (direct, nak_type) refl)
    | inr other_type ↦ elim (Bool-cases (is_unspecified p.ciaddr)) [
      | inr known_client ↦ (port_of_client p.ciaddr, rw (direct, other_type, known_client) refl)
      | inl new_client ↦ elim (Bool-cases (return_broadcast p)) [
        | inl wide ↦ (port_of_client broadcast_ip, rw (direct, other_type, new_client, wide) refl)
        | inr narrow ↦ elim h [
          | inl address ↦ (
            port_of_client broadcast_ip,
            rw (direct, other_type, new_client, narrow, ==_no address) refl,
          )
          | inr nak_type ↦ let bad : true ≡ false = rw (nak_type) at other_type in cc
        ]
      ]
    ]
  ]
]

module _ ⦃crate : ByteOrder⦄ ⦃ipnet : Ipnet⦄ ⦃chrono : Chrono⦄ where
  -- The results of a store that ask for a reply which can go somewhere: a lease of an address that
  -- is not zero, and a mismatch.
  pub data IsAnswerable : BackendResult Lease → Type 0 where
    leased :
        (lease : Lease) (net : ipnet.Ipv4Net)
        → lease.yiaddr ≡ some net
        → ipnet.addr net ≢ 0
        → IsAnswerable (granted lease)
    mismatched : IsAnswerable (refused lease_mismatch_client_ip)

  send_reply-sent :
      (p r : DhcpPacket)
      → (r.yiaddr ≢ 0) ⊎ (message_type r ≡ some neg_acknowledge)
      → (d : Datagram) × (send_reply p (some r) ≡ some d)
  unfolding send_reply
  send_reply-sent p r h =
      let (dest, e) = has_destination p r h in
      (record { dest = dest; payload = to_network r }, rw (e) refl)

  reply-sent :
      (recv_ip : Ipv4Addr) (p : DhcpPacket) (result : BackendResult Lease)
      → IsAnswerable result
      → (d : Datagram) × (send_reply p (make_reply recv_ip p result) ≡ some d)
  unfolding make_reply
  reply-sent recv_ip p _ mismatched = send_reply-sent p (nak p) (inr (nak-IsNakTo p).type)
  reply-sent recv_ip p _ (leased lease net e n) =
      let named = record lease { server_identifier = recv_ip } in
      let same = ((response-IsResponseTo p named).address net e).0 in
      send_reply-sent p (response p named) (inl (λ z. n (sym same ∙ z)))

  module _ {S : Type 0} (store : DhcpStore S) (now : chrono.DateTime) where
    asked-sent :
        (recv_ip : Ipv4Addr) (p : DhcpPacket) (t : MessageType) (s s' : S)
        (result : BackendResult Lease)
        → IsAsked t
        → find_lease store now (if not (is_unspecified p.giaddr) then p.giaddr else recv_ip) p t s
          ≡ (result, s')
        → IsAnswerable result
        → (d : Datagram) × (process_message store now recv_ip p (some t) s ≡ (some d, s'))
    unfolding process_message
    asked-sent recv_ip p _ s s' result asked_discover e a =
        let (d, sent) = reply-sent recv_ip p result a in (d, rw (e, sent) refl)
    asked-sent recv_ip p _ s s' result asked_request e a =
        let (d, sent) = reply-sent recv_ip p result a in (d, rw (e, sent) refl)
    asked-sent recv_ip p _ s s' result asked_inform e a =
        let (d, sent) = reply-sent recv_ip p result a in (d, rw (e, sent) refl)

    -- A decoded discover, request or inform that names no other server is answered by a datagram
    -- wherever the store grants a lease of an address that is not zero or finds a mismatch.
    pub process_packet_data-sent :
        (recv_ip : Ipv4Addr) (destination : Option Ipv4Addr) (bytes : List ℕ) (p : DhcpPacket)
        (t : MessageType) (s s' : S) (result : BackendResult Lease)
        → from_network bytes (sent_to_broadcast destination) ≡ ok p
        → ((ip : Ipv4Addr)
            → get_option p.options dhcp_server_id_code ≡ some (dhcp_server_id ip)
            → ip ≡ recv_ip)
        → message_type p ≡ some t
        → IsAsked t
        → find_lease store now (if not (is_unspecified p.giaddr) then p.giaddr else recv_ip) p t s
          ≡ (result, s')
        → IsAnswerable result
        → (d : Datagram) × (process_packet_data store now recv_ip destination bytes s
            ≡ (some d, s'))
    unfolding process_packet_data process_packet
    process_packet_data-sent recv_ip destination bytes p t s s' result decoded here typed asked e
          a =
        let mine = for_this_server (get_option p.options dhcp_server_id_code) recv_ip here in
        let (d, sent) = asked-sent recv_ip p t s s' result asked e a in
        (d, rw (decoded, mine, typed) sent)
