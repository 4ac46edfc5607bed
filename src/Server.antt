-- ===== src/Server.antt =====
-- rsdhcp/src/server.rs: what the server does with one datagram, and where its answer goes.
pub mod Acknowledged
pub mod Answers
pub mod Destination
pub mod Answered
pub mod Served
pub mod Renewing
pub mod Sendable
pub mod Sockets
use rsdhcp.Backends.{
  BackendResult, DhcpStore, Lease, granted, lease_mismatch_client_ip, no_lease_available,
  protocol_error, refused,
}
use rsdhcp.External.{ByteOrder, Chrono, Ipnet}
use rsdhcp.Prelude.{Bool, List, Option, false, if◌then◌else◌, none, not, some, true, ℕ, ◌==◌}
use rsdhcp.Protocol.Enums.{
  ClientState, MessageType, decline, dhcp_client_port, dhcp_server_port, discover, inform, init,
  init_reboot, neg_acknowledge, rebinding, release, renewing, request, selecting,
}
use rsdhcp.Protocol.Errors.{Result, err, no_return_address, ok}
use rsdhcp.Protocol.Option.{DhcpOption, dhcp_server_id, dhcp_server_id_code}
use rsdhcp.Protocol.Options.{get_option}
use rsdhcp.Protocol.Packet.{
  DhcpPacket, client_state, from_network, is_unspecified, message_type, return_broadcast,
  to_network,
}
use rsdhcp.Protocol.Packet.Reply.{nak, response}
use rsdhcp.Protocol.Value.{Ipv4Addr}

-- `SocketAddrV4`
pub record SocketAddr : Type 0 where
  pub ip : Ipv4Addr
  pub port : ℕ

abbrev pub broadcast_ip : Ipv4Addr
broadcast_ip = 0xffff_ffff

abbrev pub to_client : Ipv4Addr → Result SocketAddr
to_client ip = ok (record { ip = ip; port = dhcp_client_port })

-- `if let Some(MessageType::NegAcknowledge) = ..`
abbrev pub is_nak : Option MessageType → Bool
is_nak (some neg_acknowledge) = true
is_nak _ = false

unfoldable pub determine_response_dest : DhcpPacket → DhcpPacket → Result SocketAddr
unfolding message_type return_broadcast
determine_response_dest request_packet reply =
    if not (is_unspecified request_packet.giaddr)
    then ok (record { ip = request_packet.giaddr; port = dhcp_server_port })
    else if is_nak (message_type reply)
    then to_client broadcast_ip
    else if not (is_unspecified request_packet.ciaddr)
    then to_client request_packet.ciaddr
    else if return_broadcast request_packet
    then to_client broadcast_ip
    else if not (is_unspecified reply.yiaddr)
    then to_client broadcast_ip
    else err no_return_address

-- A datagram that is sent.
pub record Datagram : Type 0 where
  pub dest : SocketAddr
  pub payload : List ℕ

-- `dst.is_broadcast()`
abbrev pub sent_to_broadcast : Option Ipv4Addr → Bool
sent_to_broadcast none = false
sent_to_broadcast (some dst) = dst == broadcast_ip

-- The server identifier of the packet names another server.
abbrev pub for_another_server : Option DhcpOption → Ipv4Addr → Bool
for_another_server (some (dhcp_server_id o)) recv_ip = not (o == recv_ip)
for_another_server _ recv_ip = false

module _ ⦃crate : ByteOrder⦄ ⦃ipnet : Ipnet⦄ ⦃chrono : Chrono⦄ where
  module _ {S : Type 0} (store : DhcpStore S) (now : chrono.DateTime) where
    abbrev pub Answer : Type 0
    Answer = BackendResult Lease × S

    -- The match on the client's state for a request.
    unfoldable pub handle_request : Ipv4Addr → DhcpPacket → Option ClientState → S → Answer
    handle_request ip p (some selecting) s = store.handle_request_selecting now ip p s
    handle_request ip p (some init_reboot) s = store.handle_request_init_reboot now ip p s
    handle_request ip p (some renewing) s = store.handle_request_renewing now ip p s
    handle_request ip p (some rebinding) s = store.handle_request_rebinding now ip p s
    handle_request ip p (some init) s = (refused no_lease_available, s)
    handle_request ip p none s = (refused (protocol_error "could not determine client state"), s)

    -- The match on the message type that finds the lease.
    unfoldable pub find_lease : Ipv4Addr → DhcpPacket → MessageType → S → Answer
    unfolding handle_request
    find_lease ip p discover s = store.handle_discover now ip p s
    find_lease ip p request s = handle_request ip p (client_state p) s
    find_lease ip p inform s = store.handle_inform now ip p s
    find_lease ip p _ s = (refused (protocol_error "unknown message type"), s)

  -- The reply to a result of the store: a response with this server's address, a NAK for a client
  -- with another address, or none.
  unfoldable pub make_reply : Ipv4Addr → DhcpPacket → BackendResult Lease → Option DhcpPacket
  make_reply recv_ip p (granted lease) =
      some (response p (record lease { server_identifier = recv_ip }))
  make_reply recv_ip p (refused lease_mismatch_client_ip) = some (nak p)
  make_reply recv_ip p _ = none

  -- `send_to`: where the reply goes, and its bytes.
  abbrev pub send_to : List ℕ → Result SocketAddr → Option Datagram
  send_to payload (ok dest) = some (record { dest = dest; payload = payload })
  send_to payload (err e) = none

  unfoldable pub send_reply : DhcpPacket → Option DhcpPacket → Option Datagram
  unfolding to_network determine_response_dest
  send_reply p none = none
  send_reply p (some reply) = send_to (to_network reply) (determine_response_dest p reply)

  module _ {S : Type 0} (store : DhcpStore S) (now : chrono.DateTime) where
    -- A message of a type: release and decline change the store and have no answer.
    unfoldable pub process_message :
        Ipv4Addr → DhcpPacket → Option MessageType → S → Option Datagram × S
    unfolding find_lease make_reply send_reply
    process_message recv_ip p none s = (none, s)
    process_message recv_ip p (some release) s = (none, (store.handle_release p s).1)
    process_message recv_ip p (some decline) s = (none, (store.handle_decline now p s).1)
    process_message recv_ip p (some t) s =
        let ip = if not (is_unspecified p.giaddr) then p.giaddr else recv_ip in
        let (result, s') = find_lease store now ip p t s in
        (send_reply p (make_reply recv_ip p result), s')

    unfoldable pub process_packet : Ipv4Addr → Result DhcpPacket → S → Option Datagram × S
    unfolding process_message
    process_packet recv_ip (err e) s = (none, s)
    process_packet recv_ip (ok p) s =
        if for_another_server (get_option p.options dhcp_server_id_code) recv_ip
        then (none, s)
        else process_message recv_ip p (message_type p) s

    -- The datagram's bytes, the address that it was sent to and the one that received it.
    unfoldable pub process_packet_data :
        Ipv4Addr → Option Ipv4Addr → List ℕ → S → Option Datagram × S
    unfolding process_packet
    process_packet_data recv_ip destination bytes s =
        process_packet recv_ip (from_network bytes (sent_to_broadcast destination)) s
