-- ===== src/Server/Sendable.antt =====
-- What the server sends can be decoded by its client: for any store with sendable grants, and for
-- the netbox backend.
use rsdhcp.Backends.{BackendResult, DhcpStore, Lease, granted, panicked, refused, starved}
use rsdhcp.Backends.Netbox.{lease_of, netbox_store, serve_lease}
use rsdhcp.Backends.Netbox.Lookup.{get_lease, renew_lease}
use rsdhcp.Backends.Netbox.Monad.{Action, continue, pure}
use rsdhcp.Backends.Netbox.Sendable.{HasWidths, lease_of-IsGrant}
use rsdhcp.Backends.Netbox.Web.{Client, NetboxDhcpLease}
use rsdhcp.External.{ByteOrder, Chrono, Ipnet}
use rsdhcp.Prelude.{All, List, Option, ap, inl, inr, none, refl, some, subst, ℕ, ◌∙◌, ◌≡◌, ◌⊎◌}
use rsdhcp.Protocol.Bytes.{IsByte, IsU32}
use rsdhcp.Protocol.Enums.{ClientState, MessageType, discover, inform, init, request}
use rsdhcp.Protocol.Packet.{DhcpPacket, client_state, message_type, to_network}
use rsdhcp.Protocol.Packet.Checked.{from_network-IsWellFormed}
use rsdhcp.Protocol.Packet.Reply.Owed.{IsAsked}
use rsdhcp.Protocol.Packet.Reply.Sendable.{IsGrant, nak-IsWellFormed, response-IsWellFormed}
use rsdhcp.Protocol.Packet.WellFormed.{IsWellFormed}
use rsdhcp.Protocol.Value.{Ipv4Addr}
use rsdhcp.Server.{Datagram, find_lease, handle_request, process_packet_data, sent_to_broadcast}
use rsdhcp.Server.Answers.{Answers, by_nak, by_response, process_packet_data-IsSent}

module _ ⦃crate : ByteOrder⦄ ⦃ipnet : Ipnet⦄ ⦃chrono : Chrono⦄ where
  Answers-IsWellFormed :
      (recv_ip : Ipv4Addr) (p : DhcpPacket) (t : MessageType) (result : BackendResult Lease)
      (reply : DhcpPacket)
      → IsWellFormed p
      → message_type p ≡ some t
      → IsAsked t
      → ((lease : Lease)
          → result ≡ granted lease
          → IsGrant (record lease { server_identifier = recv_ip }))
      → Answers recv_ip p result reply
      → IsWellFormed reply
  Answers-IsWellFormed recv_ip p t _ _ w typed asked grants (by_response lease) =
      response-IsWellFormed p t (record lease { server_identifier = recv_ip }) w (grants lease refl)
        typed asked
  Answers-IsWellFormed recv_ip p t _ _ w typed asked grants by_nak = nak-IsWellFormed p w

  module _ {S : Type 0} (store : DhcpStore S) (now : chrono.DateTime) where
    -- The leases that a store grants can be sent with a server's identifier.
    abbrev pub HasGrants : Ipv4Addr → Type 0
    HasGrants recv_ip =
        (ip : Ipv4Addr) (p : DhcpPacket) (t : MessageType) (s s' : S) (lease : Lease)
        → find_lease store now ip p t s ≡ (granted lease, s')
        → IsGrant (record lease { server_identifier = recv_ip })

    -- With a store whose grants can be sent, every datagram that the server sends is the bytes of a
    -- well-formed packet.
    process_packet_data-IsWellFormed :
        (recv_ip : Ipv4Addr) (destination : Option Ipv4Addr) (bytes : List ℕ) (s : S) (d : Datagram)
        (s' : S)
        → HasGrants recv_ip
        → All IsByte bytes
        → process_packet_data store now recv_ip destination bytes s ≡ (some d, s')
        → (reply : DhcpPacket) × IsWellFormed reply × (d.payload ≡ to_network reply)
    process_packet_data-IsWellFormed recv_ip destination bytes s d s' grants b e =
        let sent = process_packet_data-IsSent store now recv_ip destination bytes s d s' e in
        let p = sent.request_packet in
        (
          sent.reply,
          Answers-IsWellFormed recv_ip p sent.type sent.result sent.reply
              (from_network-IsWellFormed bytes (sent_to_broadcast destination) p b sent.decoded)
              sent.typed sent.asked
              (λ lease is. grants _ p sent.type s s' lease (sent.stored ∙ ap (λ x. (x, s')) is))
              sent.answers,
          sent.payload,
        )

module _ ⦃crate : ByteOrder⦄ ⦃ipnet : Ipnet⦄ ⦃chrono : Chrono⦄ {W Response : Type 0}
    (client : Client W Response) (lease_url : List ℕ) (rounds : ℕ) where
  -- NetBox's leases have the widths of what they are sent in.
  abbrev pub HasLeases : Type 0
  HasLeases =
      (ip : Ipv4Addr) (p : DhcpPacket) (w w' : W) (l : NetboxDhcpLease)
      → (get_lease client lease_url rounds ip p w ≡ (granted l, w'))
        ⊎ (renew_lease client lease_url rounds ip p w ≡ (granted l, w'))
      → HasWidths l

  continue-granted :
      (now : chrono.DateTime) (r : BackendResult NetboxDhcpLease) (w w' : W) (lease : Lease)
      → continue r (λ l. pure (lease_of now l)) w ≡ (granted lease, w')
      → (l : NetboxDhcpLease) × (r ≡ granted l) × (lease_of now l ≡ lease)
  continue-granted now (granted l) w w' lease e = (l, refl, cc)
  continue-granted now (refused x) w w' lease e = cc
  continue-granted now panicked w w' lease e = cc
  continue-granted now starved w w' lease e = cc

  serve_lease-IsGrant :
      (now : chrono.DateTime) (recv_ip : Ipv4Addr) (found : Action W NetboxDhcpLease) (w w' : W)
      (lease : Lease)
      → IsU32 recv_ip
      → ((l : NetboxDhcpLease) (w'' : W) → found w ≡ (granted l, w'') → HasWidths l)
      → serve_lease client lease_url rounds now found w ≡ (granted lease, w')
      → IsGrant (record lease { server_identifier = recv_ip })
  unfolding serve_lease
  serve_lease-IsGrant now recv_ip found w w' lease u h e =
      let (l, is, same) = continue-granted now (found w).0 (found w).1 w' lease e in
      subst (λ x. IsGrant (record x { server_identifier = recv_ip })) same
        (lease_of-IsGrant now l recv_ip u (h l (found w).1 (ap (λ r. (r, (found w).1)) is)))

  handle_request-IsGrant :
      (now : chrono.DateTime) (recv_ip ip : Ipv4Addr) (p : DhcpPacket) (state : Option ClientState)
      (w w' : W) (lease : Lease)
      → IsU32 recv_ip
      → HasLeases
      → handle_request (netbox_store client lease_url rounds) now ip p state w ≡ (granted lease, w')
      → IsGrant (record lease { server_identifier = recv_ip })
  unfolding handle_request netbox_store
  handle_request-IsGrant now recv_ip ip p none w w' lease u h e = cc
  handle_request-IsGrant now recv_ip ip p (some init) w w' lease u h e = cc
  handle_request-IsGrant now recv_ip ip p (some _) w w' lease u h e =
      serve_lease-IsGrant now recv_ip (renew_lease client lease_url rounds ip p) w w' lease u
        (λ l v k. h ip p w v l (inr k)) e

  netbox_store-HasGrants :
      (now : chrono.DateTime) (recv_ip : Ipv4Addr)
      → IsU32 recv_ip
      → HasLeases
      → HasGrants (netbox_store client lease_url rounds) now recv_ip
  unfolding find_lease netbox_store
  netbox_store-HasGrants now recv_ip u h ip p discover w w' lease e =
      serve_lease-IsGrant now recv_ip (get_lease client lease_url rounds ip p) w w' lease u
        (λ l v k. h ip p w v l (inl k)) e
  netbox_store-HasGrants now recv_ip u h ip p request w w' lease e =
      handle_request-IsGrant now recv_ip ip p (client_state p) w w' lease u h e
  netbox_store-HasGrants now recv_ip u h ip p inform w w' lease e =
      serve_lease-IsGrant now recv_ip (get_lease client lease_url rounds ip p) w w' lease u
        (λ l v k. h ip p w v l (inl k)) e
  netbox_store-HasGrants now recv_ip u h ip p _ w w' lease e = cc

  -- Where NetBox's leases have the widths of the fields and options that they are sent in, every
  -- datagram that the server with the netbox backend sends is the bytes of a well-formed packet.
  pub process_packet_data-netbox_store :
      (now : chrono.DateTime) (recv_ip : Ipv4Addr) (destination : Option Ipv4Addr) (bytes : List ℕ)
      (w w' : W) (d : Datagram)
      → IsU32 recv_ip
      → HasLeases
      → All IsByte bytes
      → process_packet_data (netbox_store client lease_url rounds) now recv_ip destination bytes w
        ≡ (some d, w')
      → (reply : DhcpPacket) × IsWellFormed reply × (d.payload ≡ to_network reply)
  process_packet_data-netbox_store now recv_ip destination bytes w w' d u h b e =
      process_packet_data-IsWellFormed (netbox_store client lease_url rounds) now recv_ip
        destination bytes w d w' (netbox_store-HasGrants now recv_ip u h) b e
