-- ===== src/Server/Renewing.antt =====
-- The server with the netbox backend: how a request for an address is answered.
use rsdhcp.Backends.{BackendResult, granted}
use rsdhcp.Backends.Netbox.{lease_of, netbox_store, serve_lease}
use rsdhcp.Backends.Netbox.Lookup.{
  compare_ip, get_client_id, get_leases_for_client_id, lease_contains, renew_lease,
  update_from_packet,
}
use rsdhcp.Backends.Netbox.Monad.{continue, pure}
use rsdhcp.Backends.Netbox.Renewal.{
  FirstMatch, IsRenewal, Matches, mismatch, renew_lease-IsRenewal, renewed, renewed_lease,
  unknown_client, unsaved,
}
use rsdhcp.Backends.Netbox.Sending.{Fails, Sends}
use rsdhcp.Backends.Netbox.Web.{Client, NetboxDhcpLease, Request}
use rsdhcp.External.{ByteOrder, Chrono, Ipnet}
use rsdhcp.Prelude.{
  All, List, Option, [], false, filter, if◌then◌else◌, none, not, refl, some, ℕ, ◌∷◌, ◌≡◌, ◌≢◌,
}
use rsdhcp.Protocol.Enums.{ClientState, init, request}
use rsdhcp.Protocol.Errors.{ok}
use rsdhcp.Protocol.Option.{dhcp_server_id_code}
use rsdhcp.Protocol.Options.{get_option}
use rsdhcp.Protocol.Packet.{DhcpPacket, client_state, from_network, is_unspecified, message_type}
use rsdhcp.Protocol.Packet.Reply.{nak, response}
use rsdhcp.Protocol.Value.{Ipv4Addr}
use rsdhcp.Server.{
  Datagram, find_lease, for_another_server, handle_request, make_reply, process_message,
  process_packet, process_packet_data, send_reply, sent_to_broadcast,
}
use Prim.Native.String.{String}

module _ ⦃crate : ByteOrder⦄ ⦃ipnet : Ipnet⦄ ⦃chrono : Chrono⦄ {W Response : Type 0}
    (client : Client W Response) (lease_url : List ℕ) (rounds : ℕ) where
  -- The address whose network counts: the relay's, or else the server's.
  abbrev pub subnet_address : Ipv4Addr → DhcpPacket → Ipv4Addr
  subnet_address recv_ip p = if not (is_unspecified p.giaddr) then p.giaddr else recv_ip

  -- The client's leases that count for the packet.
  abbrev pub leases_near : Ipv4Addr → DhcpPacket → List NetboxDhcpLease → List NetboxDhcpLease
  leases_near recv_ip p ls = filter (lease_contains (compare_ip (subnet_address recv_ip p) p)) ls

  -- The response that acknowledges a lease, with this server's identifier.
  abbrev pub acknowledgement :
      chrono.DateTime → Ipv4Addr → DhcpPacket → NetboxDhcpLease → DhcpPacket
  acknowledgement now recv_ip p l =
      response p (record (lease_of now (renewed_lease client lease_url rounds p l)) {
        server_identifier = recv_ip;
      })

  -- The answers to a request, with the client's leases that count and the world after they were
  -- listed.
  pub data IsAnswered (now : chrono.DateTime) (recv_ip : Ipv4Addr) (p : DhcpPacket)
      (ls : List NetboxDhcpLease) (w : W) : Option Datagram → W → Type 0 where
    left_alone : ls ≡ [] → IsAnswered now recv_ip p ls w none w
    turned_away :
        ls ≢ []
        → All (λ l. ¬ Matches p l) ls
        → IsAnswered now recv_ip p ls w (send_reply p (some (nak p))) w
    acknowledged :
        (l : NetboxDhcpLease) (w' : W)
        → FirstMatch p ls l
        → Sends client
            (Request.put (update_from_packet p l).url (renewed_lease client lease_url rounds p l)
              ∷ [])
            w
            w'
        → IsAnswered now recv_ip p ls w (send_reply p (some (acknowledgement now recv_ip p l))) w'
    not_saved :
        (l : NetboxDhcpLease) (x : String) (w' : W)
        → FirstMatch p ls l
        → Fails client
            (Request.put (update_from_packet p l).url (renewed_lease client lease_url rounds p l))
            w
            w'
            x
        → IsAnswered now recv_ip p ls w none w'

  -- What the server makes of the result of the store.
  abbrev outcome_of :
      chrono.DateTime → Ipv4Addr → DhcpPacket → BackendResult NetboxDhcpLease → W → Option Datagram
  outcome_of now recv_ip p result w =
      send_reply p (make_reply recv_ip p (continue result (λ l. pure (lease_of now l)) w).0)

  IsRenewal-IsAnswered :
      (now : chrono.DateTime) (recv_ip : Ipv4Addr) (p : DhcpPacket) (ls : List NetboxDhcpLease)
      (w : W) (result : BackendResult NetboxDhcpLease) (w' : W)
      → IsRenewal client lease_url rounds p ls w result w'
      → IsAnswered now recv_ip p ls w
          (outcome_of now recv_ip p result w')
          (continue result (λ l. pure (lease_of now l)) w').1
  unfolding make_reply send_reply
  IsRenewal-IsAnswered now recv_ip p ls w _ _ (unknown_client e) = left_alone e
  IsRenewal-IsAnswered now recv_ip p ls w _ _ (mismatch some_lease none_matches) =
      turned_away some_lease none_matches
  IsRenewal-IsAnswered now recv_ip p ls w _ _ (renewed l w' match sent) =
      acknowledged l w' match sent
  IsRenewal-IsAnswered now recv_ip p ls w _ _ (unsaved l x w' match lost) =
      not_saved l x w' match lost

  -- In every state but the first, the backend renews.
  handle_request-renew_lease :
      (now : chrono.DateTime) (ip : Ipv4Addr) (p : DhcpPacket) (state : ClientState) (w : W)
      → ¬ (state ≡ init)
      → handle_request (netbox_store client lease_url rounds) now ip p (some state) w
        ≡ serve_lease client lease_url rounds now (renew_lease client lease_url rounds ip p) w
  unfolding handle_request netbox_store
  handle_request-renew_lease now ip p init w n = absurd (n refl)
  handle_request-renew_lease now ip p _ w n = refl

  -- A request of a client in a state that asks for an address, for this server or for none in
  -- particular, where its leases can be listed. The server leaves a client alone that has no lease on the
  -- network, sends a NAK to one whose leases there are not the address that it has and asks for, and
  -- acknowledges the first lease that is, if it could be saved; otherwise it is silent.
  pub process_packet_data-IsAnswered :
      (now : chrono.DateTime) (recv_ip : Ipv4Addr) (destination : Option Ipv4Addr) (bytes : List ℕ)
      (p : DhcpPacket) (state : ClientState) (ls : List NetboxDhcpLease) (w w' : W)
      → from_network bytes (sent_to_broadcast destination) ≡ ok p
      → for_another_server (get_option p.options dhcp_server_id_code) recv_ip ≡ false
      → message_type p ≡ some request
      → client_state p ≡ some state
      → ¬ (state ≡ init)
      → get_leases_for_client_id client lease_url rounds (get_client_id p) w ≡ (granted ls, w')
      → let store = netbox_store client lease_url rounds in
        IsAnswered now recv_ip p
          (leases_near recv_ip p ls)
          w'
          (process_packet_data store now recv_ip destination bytes w).0
          (process_packet_data store now recv_ip destination bytes w).1
  unfolding process_packet_data process_packet process_message find_lease serve_lease
  process_packet_data-IsAnswered now recv_ip destination bytes p state ls w w' d f t c n e =
      rw (d, f, t, c, handle_request-renew_lease now (subnet_address recv_ip p) p state w n)
        (IsRenewal-IsAnswered now recv_ip p (leases_near recv_ip p ls) w' _ _
          (renew_lease-IsRenewal client lease_url rounds (subnet_address recv_ip p) p ls w w' e))
