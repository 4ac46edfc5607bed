-- ===== src/Backends/Netbox/Removal.antt =====
-- Release and decline: the leases of the client at the address, and no others, are changed.
use rsdhcp.Backends.{BackendResult, backend_error, granted, refused}
use rsdhcp.Backends.Netbox.Lookup.{
  decline_at, decline_lease, delete_at, delete_lease, get_client_id, get_leases_for_client_id,
  lease_addr, requested_of,
}
use rsdhcp.Backends.Netbox.Requests.{decline, declined_lease}
use rsdhcp.Backends.Netbox.Sending.{
  Fails, Sends, Sends-append, delete-cases, nothing_sent, save-cases,
}
use rsdhcp.Backends.Netbox.Web.{Client, NetboxDhcpLease, Request}
use rsdhcp.External.{Chrono, Ipnet}
use rsdhcp.Prelude.{
  Bool, Bool-cases, List, Option, Option-cases, [], ap, filter, inl, inr, map, none, refl, some, ℕ,
  ◌++◌, ◌==◌, ◌∷◌, ◌≡◌,
}
use rsdhcp.Prelude.Int.{pos}
use rsdhcp.Protocol.Option.{address_request_code}
use rsdhcp.Protocol.Options.{get_option}
use rsdhcp.Protocol.Packet.{DhcpPacket}
use rsdhcp.Protocol.Value.{Ipv4Addr}
use rsdhcp.Text.{join}
use Prim.Native.String.{String}

module _ ⦃ipnet : Ipnet⦄ ⦃chrono : Chrono⦄ {W Response : Type 0} (client : Client W Response)
    (lease_url : List ℕ) (rounds : ℕ) where
  abbrev pub at_address : Ipv4Addr → NetboxDhcpLease → Bool
  at_address ip l = lease_addr l == ip

  -- Requests for the leases of a list, sent in order up to the first that fails.
  pub data SentUpTo (reqs : List Request) (w : W) : BackendResult (Unit {0}) → W → Type 0 where
    all_sent : (w' : W) → Sends client reqs w w' → SentUpTo reqs w (granted tt) w'
    stopped :
        (before : List Request) (req : Request) (after : List Request) (x : String) (w' w'' : W)
        → reqs ≡ before ++ req ∷ after
        → Sends client before w w'
        → Fails client req w' w'' x
        → SentUpTo reqs w (refused (backend_error x)) w''

  SentUpTo-cons :
      (req : Request) (reqs : List Request) (w w' : W) (r : BackendResult (Unit {0})) (w'' : W)
      → Sends client (req ∷ []) w w'
      → SentUpTo reqs w' r w''
      → SentUpTo (req ∷ reqs) w r w''
  SentUpTo-cons req reqs w w' _ w'' first (all_sent _ rest) =
      all_sent w'' (Sends-append client (req ∷ []) reqs w w' w'' first rest)
  SentUpTo-cons req reqs w w' _ w'' first (stopped before bad after x v _ split sent lost) =
      stopped (req ∷ before) bad after x v w'' (ap (λ y. req ∷ y) split)
        (Sends-append client (req ∷ []) before w w' v first sent) lost

  abbrev pub delete_requests : Ipv4Addr → List NetboxDhcpLease → List Request
  delete_requests ip ls = map (λ l. Request.delete l.url) (filter (at_address ip) ls)

  delete_at-SentUpTo :
      (ip : Ipv4Addr) (ls : List NetboxDhcpLease) (w : W)
      → SentUpTo
          (delete_requests ip ls)
          w
          (delete_at client lease_url rounds ip ls w).0
          (delete_at client lease_url rounds ip ls w).1
  unfolding delete_at
  delete_at-SentUpTo ip [] w = all_sent w (nothing_sent w)
  delete_at-SentUpTo ip (l ∷ ls) w = elim (Bool-cases (lease_addr l == ip)) [
    | inr f ↦ rw (f) (delete_at-SentUpTo ip ls w)
    | inl t ↦ rw (t) (elim (delete-cases client l w) [
      | inl (w', sent, e) ↦ rw (e) (
          SentUpTo-cons (Request.delete l.url) (delete_requests ip ls) w w' _ _ sent
            (delete_at-SentUpTo ip ls w'))
      | inr (x, w', lost, e) ↦ rw (e) (
          stopped [] (Request.delete l.url) (delete_requests ip ls) x w w' refl (nothing_sent w)
            lost)
    ])
  ]

  -- The lease that stands for a declined address: the name DECLINED for the client and the host, the
  -- hardware address of six zeros, and an hour from now. All else is kept.
  abbrev pub given_to_nobody : chrono.DateTime → NetboxDhcpLease → NetboxDhcpLease
  given_to_nobody now l = record {
    id = l.id;
    url = l.url;
    mac_address =
        48 ∷ 48 ∷ 58 ∷ 48 ∷ 48 ∷ 58 ∷ 48 ∷ 48 ∷ 58 ∷ 48 ∷ 48 ∷ 58 ∷ 48 ∷ 48 ∷ 58 ∷ 48 ∷ 48 ∷ [];
    client_id = 68 ∷ 69 ∷ 67 ∷ 76 ∷ 73 ∷ 78 ∷ 69 ∷ 68 ∷ [];
    receiving_ip = l.receiving_ip;
    requested_ip = l.requested_ip;
    hostname = some (68 ∷ 69 ∷ 67 ∷ 76 ∷ 73 ∷ 78 ∷ 69 ∷ 68 ∷ []);
    lease_time = l.lease_time;
    expire_time = chrono.add now (chrono.hours (pos 1));
    ip_address = l.ip_address;
    gateway = l.gateway;
    options = l.options;
    acknowledged = l.acknowledged;
  }

  abbrev pub decline_requests : chrono.DateTime → Ipv4Addr → List NetboxDhcpLease → List Request
  decline_requests now ip ls =
      map (λ l. Request.put l.url (given_to_nobody now l)) (filter (at_address ip) ls)

  decline_at-SentUpTo :
      (now : chrono.DateTime) (ip : Ipv4Addr) (ls : List NetboxDhcpLease) (w : W)
      → SentUpTo
          (decline_requests now ip ls)
          w
          (decline_at client lease_url rounds now ip ls w).0
          (decline_at client lease_url rounds now ip ls w).1
  unfolding decline_at decline declined_lease join
  decline_at-SentUpTo now ip [] w = all_sent w (nothing_sent w)
  decline_at-SentUpTo now ip (l ∷ ls) w = elim (Bool-cases (lease_addr l == ip)) [
    | inr f ↦ rw (f) (decline_at-SentUpTo now ip ls w)
    | inl t ↦ rw (t) (elim (save-cases client (declined_lease now l) w) [
      | inl (w', sent, e) ↦ rw (e) (
          SentUpTo-cons (Request.put l.url (given_to_nobody now l)) (decline_requests now ip ls) w
            w' _ _ sent (decline_at-SentUpTo now ip ls w'))
      | inr (x, w', lost, e) ↦ rw (e) (
          stopped [] (Request.put l.url (given_to_nobody now l)) (decline_requests now ip ls) x w w'
            refl (nothing_sent w) lost)
    ])
  ]

  abbrev pub decline_all : chrono.DateTime → Option Ipv4Addr → List NetboxDhcpLease → List Request
  decline_all now none ls = []
  decline_all now (some ip) ls = decline_requests now ip ls

  -- A release deletes the listed leases of the client at the address that it has, in order up to the first
  -- request that fails, and sends nothing else.
  pub delete_lease-SentUpTo :
      (p : DhcpPacket) (ls : List NetboxDhcpLease) (w w' : W)
      → get_leases_for_client_id client lease_url rounds (get_client_id p) w ≡ (granted ls, w')
      → SentUpTo
          (delete_requests p.ciaddr ls)
          w'
          (delete_lease client lease_url rounds p w).0
          (delete_lease client lease_url rounds p w).1
  unfolding delete_lease
  delete_lease-SentUpTo p ls w w' e = rw (e) (delete_at-SentUpTo p.ciaddr ls w')

  -- A decline marks the listed leases of the client at the address that it names: saved are the name
  -- DECLINED for the client and the host, a hardware address of zeros and an expiry an hour from now, in
  -- order up to the first request that fails. If the decline names no address, nothing is sent.
  pub decline_lease-SentUpTo :
      (now : chrono.DateTime) (p : DhcpPacket) (ls : List NetboxDhcpLease) (w w' : W)
      → get_leases_for_client_id client lease_url rounds (get_client_id p) w ≡ (granted ls, w')
      → SentUpTo
          (decline_all now (requested_of (get_option p.options address_request_code)) ls)
          w'
          (decline_lease client lease_url rounds now p w).0
          (decline_lease client lease_url rounds now p w).1
  unfolding decline_lease
  decline_lease-SentUpTo now p ls w w' e =
      elim (Option-cases (requested_of (get_option p.options address_request_code))) [
        | inl k ↦ rw (e, k) (all_sent w' (nothing_sent w'))
        | inr (ip, k) ↦ rw (e, k) (decline_at-SentUpTo now ip ls w')
      ]
