-- ===== src/Backends/Netbox/Allocation.antt =====
-- `get_lease`: the lease that a client has on the network, or a new one.
use rsdhcp.Backends.{BackendResult, backend_error, granted, refused}
use rsdhcp.Backends.Netbox.Lookup.{
  create_lease, get_client_id, get_lease, get_leases_for_client_id, keep_or_create, lease_contains,
  lease_on, lease_request, update_from_packet,
}
use rsdhcp.Backends.Netbox.Renewal.{renewed_lease}
use rsdhcp.Backends.Netbox.Sending.{Fails, Sends, acknowledge-cases, send_request-cases}
use rsdhcp.Backends.Netbox.Web.{Client, NetboxDhcpLease, Request, Sent, arrived, broken}
use rsdhcp.External.{Chrono, Ipnet}
use rsdhcp.Prelude.{
  All, Bool-cases, List, Option, [], ap, false, if◌then◌else◌, inl, inr, none, refl, some, some-eq,
  subst, true, ℕ, ◌++◌, ◌∷◌, ◌≡◌, ◌⊎◌,
}
use rsdhcp.Protocol.Packet.{DhcpPacket, is_unspecified}
use rsdhcp.Protocol.Value.{Ipv4Addr}
use Prim.Native.String.{String, ◌++◌ as ◌<>◌}

json-cases :
    {A : Type 0} (s : Sent A) → ((a : A) × (s ≡ arrived a)) ⊎ ((e : String) × (s ≡ broken e))
json-cases (arrived a) = inl (a, refl)
json-cases (broken e) = inr (e, refl)

module _ ⦃ipnet : Ipnet⦄ ⦃chrono : Chrono⦄ {W Response : Type 0} (client : Client W Response)
    (lease_url : List ℕ) (rounds : ℕ) where
  -- The first lease of a list that the network has.
  pub record FirstOn (ip : Ipv4Addr) (ls : List NetboxDhcpLease) (l : NetboxDhcpLease)
      : Type 0 where
    pub before : List NetboxDhcpLease
    pub after : List NetboxDhcpLease
    pub split : ls ≡ before ++ l ∷ after
    pub passed : All (λ x. lease_contains ip x ≡ false) before
    pub contains : lease_contains ip l ≡ true

  lease_on-FirstOn :
      (ip : Ipv4Addr) (ls : List NetboxDhcpLease) (l : NetboxDhcpLease)
      → lease_on ip ls ≡ some l
      → FirstOn ip ls l
  unfolding lease_on
  lease_on-FirstOn ip [] l e = cc
  lease_on-FirstOn ip (x ∷ xs) l e = elim (Bool-cases (lease_contains ip x)) [
    | inl t ↦
        let same : x ≡ l = some-eq (rw (lease_on, t) at e) in
        record {
          before = [];
          after = xs;
          split = ap (λ y. y ∷ xs) same;
          passed = tt;
          contains = subst (λ y. lease_contains ip y ≡ true) same t;
        }
    | inr f ↦
        let rest = lease_on-FirstOn ip xs l (rw (lease_on, f) at e) in
        record {
          before = x ∷ rest.before;
          after = rest.after;
          split = ap (λ y. x ∷ y) rest.split;
          passed = (f, rest.passed);
          contains = rest.contains;
        }
  ]

  lease_on-none :
      (ip : Ipv4Addr) (ls : List NetboxDhcpLease)
      → lease_on ip ls ≡ none
      → All (λ x. lease_contains ip x ≡ false) ls
  unfolding lease_on
  lease_on-none ip [] e = tt
  lease_on-none ip (x ∷ xs) e = elim (Bool-cases (lease_contains ip x)) [
    | inl t ↦ let bad : some x ≡ none = rw (lease_on, t) at e in cc
    | inr f ↦ (f, lease_on-none ip xs (rw (lease_on, f) at e))
  ]

  -- The request for a new lease: the address that receives it is the relay's, or else the server's.
  abbrev pub creation : Ipv4Addr → DhcpPacket → Request
  creation recv_ip p = Request.post lease_url (record (lease_request p) {
    receiving_ip = (if is_unspecified p.giaddr then recv_ip else p.giaddr);
  })

  -- What becomes of a discover or an inform, with the client's leases and the world after they were listed.
  pub data IsAllocation (recv_ip : Ipv4Addr) (p : DhcpPacket) (ls : List NetboxDhcpLease) (w : W)
      : BackendResult NetboxDhcpLease → W → Type 0 where
    kept :
        (l : NetboxDhcpLease) (w' : W)
        → FirstOn recv_ip ls l
        → Sends client
            (Request.put (update_from_packet p l).url (renewed_lease client lease_url rounds p l)
              ∷ [])
            w
            w'
        → IsAllocation recv_ip p ls w (granted (renewed_lease client lease_url rounds p l)) w'
    unkept :
        (l : NetboxDhcpLease) (x : String) (w' : W)
        → FirstOn recv_ip ls l
        → Fails client
            (Request.put (update_from_packet p l).url (renewed_lease client lease_url rounds p l))
            w
            w'
            x
        → IsAllocation recv_ip p ls w (refused (backend_error x)) w'
    created :
        (l : NetboxDhcpLease) (response : Response) (w' : W)
        → All (λ x. lease_contains recv_ip x ≡ false) ls
        → client.send (creation recv_ip p) w ≡ (arrived response, w')
        → client.is_success response ≡ true
        → client.json_lease response ≡ arrived l
        → IsAllocation recv_ip p ls w (granted l) w'
    uncreated :
        (x : String) (w' : W)
        → All (λ x. lease_contains recv_ip x ≡ false) ls
        → Fails client (creation recv_ip p) w w' x
          ⊎ ((response : Response) × (e : String) × (client.send (creation recv_ip p) w
                ≡ (arrived response, w'))
              × (client.json_lease response ≡ broken e)
              × (x ≡ "error decoding response data: " <> e))
        → IsAllocation recv_ip p ls w (refused (backend_error x)) w'

  create_lease-IsAllocation :
      (recv_ip : Ipv4Addr) (p : DhcpPacket) (ls : List NetboxDhcpLease) (w : W)
      → All (λ x. lease_contains recv_ip x ≡ false) ls
      → IsAllocation recv_ip p ls w
          (create_lease client lease_url rounds recv_ip p w).0
          (create_lease client lease_url rounds recv_ip p w).1
  unfolding create_lease lease_request
  create_lease-IsAllocation recv_ip p ls w absent =
      elim (send_request-cases client (creation recv_ip p) w) [
        | inr (x, w', lost, e) ↦ rw (e) (uncreated x w' absent (inl lost))
        | inl (r, w', sent, well, e) ↦ elim (json-cases (client.json_lease r)) [
          | inl (l, k) ↦ rw (e, k) (created l r w' absent sent well k)
          | inr (t, k) ↦
              rw (e, k)
                (uncreated ("error decoding response data: " <> t) w' absent
                  (inr (r, t, sent, k, refl)))
        ]
      ]

  keep_or_create-IsAllocation :
      (recv_ip : Ipv4Addr) (p : DhcpPacket) (ls : List NetboxDhcpLease) (o : Option NetboxDhcpLease)
      (w : W)
      → lease_on recv_ip ls ≡ o
      → IsAllocation recv_ip p ls w
          (keep_or_create client lease_url rounds o recv_ip p w).0
          (keep_or_create client lease_url rounds o recv_ip p w).1
  keep_or_create-IsAllocation recv_ip p ls none w e =
      create_lease-IsAllocation recv_ip p ls w (lease_on-none recv_ip ls e)
  keep_or_create-IsAllocation recv_ip p ls (some l) w e =
      elim (acknowledge-cases client (update_from_packet p l) w) [
        | inl (w', sent, k) ↦ rw (k) (kept l w' (lease_on-FirstOn recv_ip ls l e) sent)
        | inr (x, w', lost, k) ↦ rw (k) (unkept l x w' (lease_on-FirstOn recv_ip ls l e) lost)
      ]

  -- Of the leases that are listed for the client's identifier, the first on the network of the
  -- receiving address is granted, if it could be saved with the marks of the packet. Without one, a
  -- lease is asked for, and what NetBox gives is granted.
  pub get_lease-IsAllocation :
      (recv_ip : Ipv4Addr) (p : DhcpPacket) (ls : List NetboxDhcpLease) (w w' : W)
      → get_leases_for_client_id client lease_url rounds (get_client_id p) w ≡ (granted ls, w')
      → IsAllocation recv_ip p ls w'
          (get_lease client lease_url rounds recv_ip p w).0
          (get_lease client lease_url rounds recv_ip p w).1
  unfolding get_lease
  get_lease-IsAllocation recv_ip p ls w w' e =
      rw (e) (keep_or_create-IsAllocation recv_ip p ls (lease_on recv_ip ls) w' refl)
