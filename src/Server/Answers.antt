-- ===== src/Server/Answers.antt =====
-- What the server does with a datagram: the answers that it sends, and those that it keeps back.
use rsdhcp.Backends.{BackendResult, DhcpStore, Lease, granted, lease_mismatch_client_ip, refused}
use rsdhcp.External.{ByteOrder, Chrono, Ipnet}
use rsdhcp.Prelude.{
  ==_iff, Bool-cases, List, Option, ap, false, if◌then◌else◌, inl, inr, none, not, refl, some,
  some-eq, subst, sym, true, ℕ, ◌==◌, ◌≡◌, ◌⊎◌,
}
use rsdhcp.Protocol.Enums.{MessageType, decline, discover, inform, release, request}
use rsdhcp.Protocol.Errors.{Result, err, ok}
use rsdhcp.Protocol.Option.{dhcp_server_id, dhcp_server_id_code}
use rsdhcp.Protocol.Options.{get_option}
use rsdhcp.Protocol.Packet.{DhcpPacket, from_network, is_unspecified, message_type, to_network}
use rsdhcp.Protocol.Packet.Reply.{nak, response}
use rsdhcp.Protocol.Packet.Reply.Owed.{
  IsAsked, IsNakTo, IsResponseTo, asked_discover, asked_inform, asked_request, nak-IsNakTo,
  response-IsResponseTo,
}
use rsdhcp.Protocol.Value.{Ipv4Addr}
use rsdhcp.Server.{
  Answer, Datagram, SocketAddr, determine_response_dest, find_lease, for_another_server, make_reply,
  process_message, process_packet, process_packet_data, send_reply, send_to, sent_to_broadcast,
}
use rsdhcp.Server.Destination.{IsDestination, determine_response_dest-IsDestination}

module _ ⦃crate : ByteOrder⦄ ⦃ipnet : Ipnet⦄ ⦃chrono : Chrono⦄ where
  -- The reply that each result of the store has: a lease is answered with this server's identifier,
  -- and a mismatch by a NAK.
  pub data Answers (recv_ip : Ipv4Addr) (p : DhcpPacket)
      : BackendResult Lease → DhcpPacket → Type 0 where
    by_response :
        (lease : Lease)
        → Answers recv_ip p
            (granted lease)
            (response p (record lease { server_identifier = recv_ip }))
    by_nak : Answers recv_ip p (refused lease_mismatch_client_ip) (nak p)

  make_reply-Answers :
      (recv_ip : Ipv4Addr) (p : DhcpPacket) (result : BackendResult Lease) (r : DhcpPacket)
      → make_reply recv_ip p result ≡ some r
      → Answers recv_ip p result r
  unfolding make_reply
  make_reply-Answers recv_ip p (granted lease) r e =
      subst (Answers recv_ip p (granted lease)) (some-eq e) (by_response lease)
  make_reply-Answers recv_ip p (refused lease_mismatch_client_ip) r e =
      subst (Answers recv_ip p (refused lease_mismatch_client_ip)) (some-eq e) by_nak
  make_reply-Answers recv_ip p _ r e = cc

  -- What the reply to each result owes the request.
  abbrev pub Owed : Ipv4Addr → DhcpPacket → BackendResult Lease → DhcpPacket → Type 0
  Owed recv_ip p (granted lease) r = IsResponseTo p (record lease { server_identifier = recv_ip }) r
  Owed recv_ip p (refused lease_mismatch_client_ip) r = IsNakTo p r
  Owed recv_ip p _ r = ⊥

  Answers-Owed :
      (recv_ip : Ipv4Addr) (p : DhcpPacket) (result : BackendResult Lease) (r : DhcpPacket)
      → Answers recv_ip p result r
      → Owed recv_ip p result r
  Answers-Owed recv_ip p _ _ (by_response lease) = response-IsResponseTo p _
  Answers-Owed recv_ip p _ _ by_nak = nak-IsNakTo p

  send_to-some :
      (payload : List ℕ) (dest : Result SocketAddr) (d : Datagram)
      → send_to payload dest ≡ some d
      → (dest ≡ ok d.dest) × (d.payload ≡ payload)
  send_to-some payload (ok dest) d e =
      let same : record { dest = dest; payload = payload } ≡ d = some-eq e in
      (ap (λ x. ok x.dest) same, ap (λ x. x.payload) (sym same))
  send_to-some payload (err x) d e = cc

  send_reply-some :
      (p : DhcpPacket) (o : Option DhcpPacket) (d : Datagram)
      → send_reply p o ≡ some d
      → (r : DhcpPacket) × (o ≡ some r)
        × (determine_response_dest p r ≡ ok d.dest)
        × (d.payload ≡ to_network r)
  unfolding send_reply
  send_reply-some p none d e = cc
  send_reply-some p (some r) d e =
      let sent = send_to-some (to_network r) (determine_response_dest p r) d e in
      (r, refl, sent.0, sent.1)

  module _ {S : Type 0} (store : DhcpStore S) (now : chrono.DateTime) where
    -- What stands behind a datagram that is sent: the request that was received, which names no other
    -- server and has a type that is answered; the store's result, with the state that it left; and the
    -- reply to that result.
    pub record IsSent (recv_ip : Ipv4Addr) (received : Result DhcpPacket) (s : S) (d : Datagram)
        (s' : S) : Type 0 where
      pub request_packet : DhcpPacket
      pub reply : DhcpPacket
      pub type : MessageType
      pub result : BackendResult Lease
      pub decoded : received ≡ ok request_packet
      pub for_this_server :
          (o : Ipv4Addr)
          → get_option request_packet.options dhcp_server_id_code ≡ some (dhcp_server_id o)
          → o ≡ recv_ip
      pub typed : message_type request_packet ≡ some type
      pub asked : IsAsked type
      pub stored :
          find_lease store now
            (if not (is_unspecified request_packet.giaddr) then request_packet.giaddr else recv_ip)
            request_packet
            type
            s
          ≡ (result, s')
      pub answers : Answers recv_ip request_packet result reply
      pub owed : Owed recv_ip request_packet result reply
      pub destination : IsDestination request_packet reply (ok d.dest)
      pub payload : d.payload ≡ to_network reply

    find_lease-asked :
        (ip recv_ip : Ipv4Addr) (p : DhcpPacket) (t : MessageType) (s : S)
        → IsAsked t ⊎ (make_reply recv_ip p (find_lease store now ip p t s).0 ≡ none)
    unfolding find_lease make_reply
    find_lease-asked ip recv_ip p discover s = inl asked_discover
    find_lease-asked ip recv_ip p request s = inl asked_request
    find_lease-asked ip recv_ip p inform s = inl asked_inform
    find_lease-asked ip recv_ip p _ s = inr refl

    for_another_server-false :
        (recv_ip : Ipv4Addr) (p : DhcpPacket)
        → for_another_server (get_option p.options dhcp_server_id_code) recv_ip ≡ false
        → (o : Ipv4Addr) → get_option p.options dhcp_server_id_code ≡ some (dhcp_server_id o)
        → o ≡ recv_ip
    for_another_server-false recv_ip p h o e = elim (Bool-cases (o == recv_ip)) [
      | inl t ↦ (==_iff o recv_ip).0 t
      | inr f ↦ let bad : true ≡ false = rw (e, f) at h in cc
    ]

    -- The address that the store is asked with.
    abbrev pub asking_ip : Ipv4Addr → DhcpPacket → Ipv4Addr
    asking_ip recv_ip p = if not (is_unspecified p.giaddr) then p.giaddr else recv_ip

    answered :
        (recv_ip : Ipv4Addr) (p : DhcpPacket) (t : MessageType) (s : S) (d : Datagram) (s' : S)
        → send_reply p (make_reply recv_ip p (find_lease store now (asking_ip recv_ip p) p t s).0)
          ≡ some d
        → (find_lease store now (asking_ip recv_ip p) p t s).1 ≡ s'
        → for_another_server (get_option p.options dhcp_server_id_code) recv_ip ≡ false
        → message_type p ≡ some t
        → IsSent recv_ip (ok p) s d s'
    answered recv_ip p t s d s' e left other typed =
        let (r, made, dest, bytes) = send_reply-some p _ d e in
        let answers = make_reply-Answers recv_ip p _ r made in
        record {
          request_packet = p;
          reply = r;
          type = t;
          result = (find_lease store now (asking_ip recv_ip p) p t s).0;
          decoded = refl;
          for_this_server = for_another_server-false recv_ip p other;
          typed = typed;
          asked = elim (find_lease-asked (asking_ip recv_ip p) recv_ip p t s) [
            | inl a ↦ a
            | inr silent ↦ cc
          ];
          stored =
              ap {B = Answer store now}
                (λ left. ((find_lease store now (asking_ip recv_ip p) p t s).0, left)) left;
          answers = answers;
          owed = Answers-Owed recv_ip p _ r answers;
          destination = (determine_response_dest-IsDestination p r (ok d.dest)).1 dest;
          payload = bytes;
        }

    process_message-IsSent :
        (recv_ip : Ipv4Addr) (p : DhcpPacket) (t : Option MessageType) (s : S) (d : Datagram)
        (s' : S)
        → process_message store now recv_ip p t s ≡ (some d, s')
        → for_another_server (get_option p.options dhcp_server_id_code) recv_ip ≡ false
        → message_type p ≡ t
        → IsSent recv_ip (ok p) s d s'
    unfolding process_message
    process_message-IsSent recv_ip p none s d s' e other typed = cc
    process_message-IsSent recv_ip p (some release) s d s' e other typed = cc
    process_message-IsSent recv_ip p (some decline) s d s' e other typed = cc
    process_message-IsSent recv_ip p (some t) s d s' e other typed =
        answered recv_ip p t s d s' (ap (λ x. x.0) e) (ap (λ x. x.1) e) other typed

    process_packet-IsSent :
        (recv_ip : Ipv4Addr) (received : Result DhcpPacket) (s : S) (d : Datagram) (s' : S)
        → process_packet store now recv_ip received s ≡ (some d, s')
        → IsSent recv_ip received s d s'
    unfolding process_packet
    process_packet-IsSent recv_ip (err x) s d s' e = cc
    process_packet-IsSent recv_ip (ok p) s d s' e =
        elim (Bool-cases (for_another_server (get_option p.options dhcp_server_id_code) recv_ip)) [
          | inl t ↦
              let bad : ◌≡◌ {A = Option Datagram × S} (none, s) (some d, s') = rw (t) at e in cc
          | inr f ↦ process_message-IsSent recv_ip p (message_type p) s d s' (rw (f) at e) f refl
        ]

    -- A datagram is sent only for a decoded discover, request or inform that names no other server.
    -- The reply is the response with this server's identifier for a lease that the store granted, or
    -- the NAK where the store found a mismatch. Both take over the request's transaction, hardware, relay
    -- and client identifier; a response has the request's flags and ciaddr, the type that answers the
    -- request's, and the lease's address, mask and options; a NAK has its type, no address, and the
    -- request's flags, or the broadcast flag for a relay. The reply goes where section 4.1 of RFC 2131 says,
    -- and its bytes are sent. The state is the one that the store's handler left.
    pub process_packet_data-IsSent :
        (recv_ip : Ipv4Addr) (destination : Option Ipv4Addr) (bytes : List ℕ) (s : S) (d : Datagram)
        (s' : S)
        → process_packet_data store now recv_ip destination bytes s ≡ (some d, s')
        → IsSent recv_ip (from_network bytes (sent_to_broadcast destination)) s d s'
    unfolding process_packet_data
    process_packet_data-IsSent recv_ip destination bytes s d s' e =
        process_packet-IsSent recv_ip (from_network bytes (sent_to_broadcast destination)) s d s' e
