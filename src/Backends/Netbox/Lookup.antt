-- ===== src/Backends/Netbox/Lookup.antt =====
-- Finding, renewing and removing the leases of a client.
use rsdhcp.Backends.{backend_error, lease_mismatch_client_ip, no_lease_available}
use rsdhcp.Backends.Netbox.Monad.{Action, pure, raise, ◌>>=◌}
use rsdhcp.Backends.Netbox.Requests.{acknowledge, all, decline, delete, page_of, send_request}
use rsdhcp.Backends.Netbox.Web.{
  Client, NetboxDhcpLease, NetboxDhcpLeaseRequest, Request, Sent, arrived, broken,
}
use rsdhcp.External.{Chrono, Ipnet}
use rsdhcp.Prelude.{
  Bool, List, Option, [], false, filter, if◌then◌else◌, length, map, min, none, not, some, take, ℕ,
  ◌&&◌, ◌==◌, ◌||◌, ◌∷◌,
}
use rsdhcp.Protocol.Option.{
  DhcpOption, address_request, address_request_code, client_id, client_id_code, hostname,
  hostname_code,
}
use rsdhcp.Protocol.Options.{get_option}
use rsdhcp.Protocol.Packet.{DhcpPacket, is_unspecified}
use rsdhcp.Protocol.Packet.Reply.{response}
use rsdhcp.Protocol.Value.{Ipv4Addr}
use rsdhcp.Text.{join, octet}
use Prim.Native.String.{◌++◌ as ◌<>◌}

-- `u8_to_hex`
unfoldable pub u8_to_hex : List ℕ → List ℕ
unfolding octet join
u8_to_hex bytes = join b':' (map octet bytes)

-- The bytes of `chaddr` that `hlen` counts.
abbrev pub hardware_address : DhcpPacket → List ℕ
hardware_address p = take (min p.hlen (length p.chaddr)) p.chaddr

abbrev pub client_id_of : Option DhcpOption → DhcpPacket → List ℕ
client_id_of (some (client_id cid)) p = cid
client_id_of _ p = hardware_address p

unfoldable pub get_client_id : DhcpPacket → List ℕ
unfolding u8_to_hex
get_client_id p = u8_to_hex (client_id_of (get_option p.options client_id_code) p)

abbrev pub hostname_of : Option DhcpOption → Option (List ℕ)
hostname_of (some (hostname o)) = some o
hostname_of _ = none

abbrev pub requested_of : Option DhcpOption → Option Ipv4Addr
requested_of (some (address_request o)) = some o
requested_of _ = none

-- `From<&DhcpPacket> for NetboxDhcpLeaseRequest`
unfoldable pub lease_request : DhcpPacket → NetboxDhcpLeaseRequest
unfolding get_client_id u8_to_hex
lease_request p = record {
  mac_address = u8_to_hex (hardware_address p);
  client_id = get_client_id p;
  receiving_ip = p.giaddr;
  requested_ip = requested_of (get_option p.options address_request_code);
  hostname = hostname_of (get_option p.options hostname_code);
}

module _ ⦃ipnet : Ipnet⦄ ⦃chrono : Chrono⦄ where
  abbrev pub with_hostname : Option DhcpOption → NetboxDhcpLease → NetboxDhcpLease
  with_hostname (some (hostname o)) lease = record lease { hostname = some o }
  with_hostname _ lease = lease

  abbrev pub with_client_id : Option DhcpOption → NetboxDhcpLease → NetboxDhcpLease
  with_client_id (some (client_id o)) lease = record lease { client_id = u8_to_hex o }
  with_client_id _ lease = lease

  unfoldable pub update_from_packet : DhcpPacket → NetboxDhcpLease → NetboxDhcpLease
  unfolding u8_to_hex
  update_from_packet p lease =
      with_client_id (get_option p.options client_id_code)
        (with_hostname (get_option p.options hostname_code) lease)

  abbrev pub lease_contains : Ipv4Addr → NetboxDhcpLease → Bool
  lease_contains ip lease = ipnet.contains lease.ip_address.address ip

  abbrev pub lease_addr : NetboxDhcpLease → Ipv4Addr
  lease_addr lease = ipnet.addr lease.ip_address.address

  -- The `for` loop of `get_lease`: the first lease whose network has the address.
  unfoldable pub lease_on : Ipv4Addr → List NetboxDhcpLease → Option NetboxDhcpLease
  lease_on ip [] = none
  lease_on ip (l ∷ ls) = if lease_contains ip l then some l else lease_on ip ls

  abbrev pub asks_other : Option DhcpOption → Ipv4Addr → Bool
  asks_other (some (address_request o)) ip = not (o == ip)
  asks_other _ ip = false

  -- The two `continue`s of `renew_lease`: the client means another address.
  abbrev pub means_other : DhcpPacket → NetboxDhcpLease → Bool
  means_other p lease =
      (not (is_unspecified p.ciaddr) && not (p.ciaddr == lease_addr lease))
      || asks_other (get_option p.options address_request_code) (lease_addr lease)

  -- The second loop of `renew_lease`.
  unfoldable pub matching : DhcpPacket → List NetboxDhcpLease → Option NetboxDhcpLease
  matching p [] = none
  matching p (l ∷ ls) = if means_other p l then matching p ls else some l

  abbrev pub compare_ip : Ipv4Addr → DhcpPacket → Ipv4Addr
  compare_ip recv_ip p = if not (is_unspecified p.ciaddr) then p.ciaddr else recv_ip

abbrev pub client_id_key : List ℕ
client_id_key = b'c' ∷ b'l' ∷ b'i' ∷ b'e' ∷ b'n' ∷ b't' ∷ b'_' ∷ b'i' ∷ b'd' ∷ []

module _ ⦃ipnet : Ipnet⦄ ⦃chrono : Chrono⦄ {W Response : Type 0} (client : Client W Response)
    (lease_url : List ℕ) (rounds : ℕ) where
  unfoldable pub get_leases_for_client_id : List ℕ → Action W (List NetboxDhcpLease)
  unfolding send_request all
  get_leases_for_client_id cid = do
    response ← send_request client (Request.get_query lease_url client_id_key cid)
    page ← page_of client (client.json_page response)
    all client rounds page

  abbrev pub lease_of_response : Sent NetboxDhcpLease → Action W NetboxDhcpLease
  lease_of_response (arrived l) = pure l
  lease_of_response (broken e) = raise (backend_error ("error decoding response data: " <> e))

  unfoldable pub create_lease : Ipv4Addr → DhcpPacket → Action W NetboxDhcpLease
  unfolding lease_request send_request
  create_lease recv_ip p =
      let body = lease_request p in
      let ip = if is_unspecified body.receiving_ip then recv_ip else body.receiving_ip in
      do
        response ← send_request client (Request.post lease_url (record body { receiving_ip = ip }))
        lease_of_response (client.json_lease response)

  abbrev pub keep_or_create :
      Option NetboxDhcpLease → Ipv4Addr → DhcpPacket → Action W NetboxDhcpLease
  keep_or_create (some l) recv_ip p = acknowledge client (update_from_packet p l)
  keep_or_create none recv_ip p = create_lease recv_ip p

  unfoldable pub get_lease : Ipv4Addr → DhcpPacket → Action W NetboxDhcpLease
  unfolding get_leases_for_client_id get_client_id lease_on create_lease acknowledge
      update_from_packet
  get_lease recv_ip p = do
    existing ← get_leases_for_client_id (get_client_id p)
    keep_or_create (lease_on recv_ip existing) recv_ip p

  abbrev pub renew_matching : DhcpPacket → Option NetboxDhcpLease → Action W NetboxDhcpLease
  renew_matching p none = raise lease_mismatch_client_ip
  renew_matching p (some l) = acknowledge client (update_from_packet p l)

  abbrev pub renew_among : DhcpPacket → List NetboxDhcpLease → Action W NetboxDhcpLease
  renew_among p [] = raise no_lease_available
  renew_among p (l ∷ ls) = renew_matching p (matching p (l ∷ ls))

  unfoldable pub renew_lease : Ipv4Addr → DhcpPacket → Action W NetboxDhcpLease
  unfolding get_leases_for_client_id get_client_id matching acknowledge update_from_packet
  renew_lease recv_ip p = do
    existing ← get_leases_for_client_id (get_client_id p)
    renew_among p (filter (lease_contains (compare_ip recv_ip p)) existing)

  -- The loop of `delete_lease`.
  unfoldable pub delete_at : Ipv4Addr → List NetboxDhcpLease → Action W (Unit {0})
  unfolding delete
  delete_at ip [] = pure tt
  delete_at ip (l ∷ ls) =
      if lease_addr l == ip then (do done ← delete client l; delete_at ip ls) else delete_at ip ls

  unfoldable pub delete_lease : DhcpPacket → Action W (Unit {0})
  unfolding get_leases_for_client_id get_client_id delete_at
  delete_lease p = do
    existing ← get_leases_for_client_id (get_client_id p)
    delete_at p.ciaddr existing

  -- The loop of `decline_lease`.
  unfoldable pub decline_at :
      chrono.DateTime → Ipv4Addr → List NetboxDhcpLease → Action W (Unit {0})
  unfolding decline
  decline_at now ip [] = pure tt
  decline_at now ip (l ∷ ls) =
      if lease_addr l == ip
      then (do done ← decline client now l; decline_at now ip ls)
      else decline_at now ip ls

  abbrev pub decline_requested :
      chrono.DateTime → Option Ipv4Addr → List NetboxDhcpLease → Action W (Unit {0})
  decline_requested now none ls = pure tt
  decline_requested now (some ip) ls = decline_at now ip ls

  unfoldable pub decline_lease : chrono.DateTime → DhcpPacket → Action W (Unit {0})
  unfolding get_leases_for_client_id get_client_id decline_at
  decline_lease now p = do
    existing ← get_leases_for_client_id (get_client_id p)
    decline_requested now (requested_of (get_option p.options address_request_code)) existing
