-- ===== src/Backends/Memory/Sound.antt =====
-- The invariant of the memory store, and that every handler keeps it.
use rsdhcp.Backends.{BackendError, Lease, no_lease_available, protocol_error, refused}
use rsdhcp.Backends.Memory.{
  handle_discover, handle_request_init_reboot, handle_request_renewing, lease_mask, masked_reboot,
  no_mask_error, offer_address, offered_lease, remove_of, requested_address, requested_params,
}
use rsdhcp.Backends.Memory.Database.{
  Memory, get_lease_for_ip, insert, lookup, remove_lease, store_at, store_lease,
}
use rsdhcp.Backends.Memory.Laws.{Distinct, insert-Distinct, lookup-All, remove-All, remove-Distinct}
use rsdhcp.Backends.Memory.Maskless.{Maskless}
use rsdhcp.Backends.Memory.Offers.{Available, chosen-cases, offered_lease-Offered}
use rsdhcp.Backends.Memory.Params.{process_params}
use rsdhcp.External.{Chrono, Ipnet}
use rsdhcp.Prelude.{
  ==_yes, All, Bool-cases, List, Option, Option-cases, [], inl, inr, none, refl, some, subst, sym,
  ◌<◌, ◌∷◌, ◌≡◌, ◌≤◌,
}
use rsdhcp.Protocol.Option.{address_request_code, parameter_list_code}
use rsdhcp.Protocol.Options.{get_option}
use rsdhcp.Protocol.Packet.{DhcpPacket, is_unspecified}
use rsdhcp.Protocol.Packet.Reply.{or_else}
use rsdhcp.Protocol.Value.{Ipv4Addr}

module _ ⦃ipnet : Ipnet⦄ ⦃chrono : Chrono⦄ where
  -- A lease stands under its own address, which is in the scope, and names no mask.
  unfoldable pub IsEntry : Ipv4Addr → Ipv4Addr → Ipv4Addr × Lease → Type 0
  IsEntry low high entry =
      ((net : ipnet.Ipv4Net) × (entry.1.yiaddr ≡ some net) × (ipnet.addr net ≡ entry.0))
      × (low ≤ entry.0)
      × (entry.0 < high)
      × Maskless entry.1

  -- Every address has one lease, and every lease is such an entry.
  pub record IsSound (m : Memory) : Type 0 where
    pub distinct : Distinct m.database
    pub entries : All (IsEntry m.scope_start m.scope_end) m.database

  pub remove_lease-IsSound : (ip : Ipv4Addr) (m : Memory) → IsSound m → IsSound (remove_lease ip m)
  unfolding remove_lease
  remove_lease-IsSound ip m s = record {
    distinct = remove-Distinct ip m.database s.distinct;
    entries = remove-All (IsEntry m.scope_start m.scope_end) ip m.database s.entries;
  }

  store_at-IsSound :
      (lease : Lease) (net : ipnet.Ipv4Net) (m : Memory)
      → IsSound m
      → IsEntry m.scope_start m.scope_end (ipnet.addr net, lease)
      → IsSound (store_at (some net) lease m)
  unfolding insert
  store_at-IsSound lease net m s entry = record {
    distinct = insert-Distinct (ipnet.addr net) lease m.database s.distinct;
    entries = (
      entry,
      remove-All (IsEntry m.scope_start m.scope_end) (ipnet.addr net) m.database s.entries,
    );
  }

  pub store_lease-IsSound :
      (lease : Lease) (ip : Ipv4Addr) (m : Memory)
      → IsSound m
      → IsEntry m.scope_start m.scope_end (ip, lease)
      → IsSound (store_lease lease m)
  unfolding store_lease IsEntry
  store_lease-IsSound lease ip m s entry =
      let (net, e, k) = entry.0 in
      subst (λ o. IsSound (store_at o lease m)) (sym e)
        (store_at-IsSound lease net m s
          (subst (λ x. IsEntry m.scope_start m.scope_end (x, lease)) (sym k) entry))

  -- The lease of an address, granted again.
  pub renewed-IsEntry :
      (now : chrono.DateTime) (ip : Ipv4Addr) (lease : Lease) (m : Memory)
      → IsSound m
      → get_lease_for_ip ip m ≡ some lease
      → IsEntry m.scope_start m.scope_end (ip, record lease { lease_time = now })
  unfolding IsEntry get_lease_for_ip Maskless
  renewed-IsEntry now ip lease m s e =
      lookup-All (IsEntry m.scope_start m.scope_end) ip m.database lease s.entries e

  in_scope :
      (now : chrono.DateTime) (ip : Ipv4Addr) (m : Memory)
      → IsSound m
      → Available now m ip
      → (m.scope_start ≤ ip) × (ip < m.scope_end)
  unfolding Available get_lease_for_ip IsEntry
  in_scope now ip m s (inl (low, high, free)) = (low, high)
  in_scope now ip m s (inr (old, e, expired)) =
      let entry = lookup-All (IsEntry m.scope_start m.scope_end) ip m.database old s.entries e in
      (entry.1, entry.2)

  offer_address-IsSound :
      (now : chrono.DateTime) (packet : DhcpPacket) (m : Memory) (ip : Ipv4Addr)
      → IsSound m
      → Available now m ip
      → IsSound (offer_address now packet m ip).1
  unfolding offer_address IsEntry offered_lease
  offer_address-IsSound now packet m ip s free =
      let codes = requested_params (get_option packet.options parameter_list_code) in
      elim (Option-cases (ipnet.with_netmask ip m.netmask_addr)) [
        | inl panic ↦ rw (offer_address, panic) s
        | inr (net, l) ↦ elim (Option-cases (process_params m codes)) [
          | inl panic ↦ rw (offer_address, l, panic) s
          | inr (params, q) ↦
              let offer = offered_lease-Offered now packet m ip net params codes free l q in
              let scope = in_scope now ip m s free in
              rw (offer_address, l, q)
                (store_lease-IsSound (offered_lease now packet net params) ip m s (
                  (net, refl, ipnet.addr-with_netmask ip m.netmask_addr net l),
                  scope.0,
                  scope.1,
                  offer.maskless,
                ))
        ]
      ]

  pub handle_discover-IsSound :
      (now : chrono.DateTime) (recv_ip : Ipv4Addr) (packet : DhcpPacket) (m : Memory)
      → IsSound m
      → IsSound (handle_discover now recv_ip packet m).1
  unfolding handle_discover
  handle_discover-IsSound now recv_ip packet m s = elim (chosen-cases now m s.distinct) [
    | inl (lacking, full) ↦ rw (handle_discover, lacking) s
    | inr (ip, k, free) ↦ rw (handle_discover, k) (offer_address-IsSound now packet m ip s free)
  ]

  pub handle_request_renewing-IsSound :
      (now : chrono.DateTime) (recv_ip : Ipv4Addr) (packet : DhcpPacket) (m : Memory)
      → IsSound m
      → IsSound (handle_request_renewing now recv_ip packet m).1
  unfolding handle_request_renewing
  handle_request_renewing-IsSound now recv_ip packet m s =
      let ip =
        or_else (requested_address (get_option packet.options address_request_code))
          packet.ciaddr in
      elim (Bool-cases (is_unspecified ip)) [
        | inl t ↦ rw (t) s
        | inr f ↦ rw (f) (elim (Option-cases (get_lease_for_ip ip m)) [
          | inl e ↦ rw (e) s
          | inr (lease, e) ↦ rw (e) (
              store_lease-IsSound (record lease { lease_time = now }) ip m s
                (renewed-IsEntry now ip lease m s e))
        ])
      ]

  masked_reboot-refused :
      (now : chrono.DateTime) (origin ip : Ipv4Addr) (lease : Lease) (m : Memory)
      → Maskless lease
      → masked_reboot now origin ip lease m ≡ (refused no_mask_error, m)
  unfolding masked_reboot Maskless
  masked_reboot-refused now origin ip lease m h = elim (Option-cases (lease_mask lease.options)) [
    | inl e ↦ rw (masked_reboot, e) refl
    | inr (mask, e) ↦ rw (masked_reboot, e, ==_yes (h mask e)) refl
  ]

  -- The store never grants a rebooting client its address: with no stored lease that names a mask, a
  -- request in the INIT-REBOOT state is refused and leaves the state as it was.
  pub handle_request_init_reboot-refused :
      (now : chrono.DateTime) (recv_ip : Ipv4Addr) (packet : DhcpPacket) (m : Memory)
      → All (λ entry. Maskless entry.1) m.database
      → (x : BackendError) × (handle_request_init_reboot now recv_ip packet m ≡ (refused x, m))
  unfolding handle_request_init_reboot get_lease_for_ip
  handle_request_init_reboot-refused now recv_ip packet m h =
      let ip = or_else (requested_address (get_option packet.options address_request_code)) 0 in
      elim (Bool-cases (is_unspecified ip)) [
        | inl t ↦ (protocol_error "Init Reboot state expects", rw (t) refl)
        | inr f ↦ elim (Option-cases (lookup ip m.database)) [
          | inl e ↦ (no_lease_available, rw (f, e) refl)
          | inr (lease, e) ↦ (
            no_mask_error,
            rw (f, e)
                (masked_reboot-refused now _ ip lease m
                  (lookup-All (λ entry. Maskless entry.1) ip m.database lease h e)),
          )
        ]
      ]

  entries-Maskless :
      (low high : Ipv4Addr) (db : List (Ipv4Addr × Lease))
      → All (IsEntry low high) db
      → All (λ entry. Maskless entry.1) db
  unfolding IsEntry
  entries-Maskless low high [] h = tt
  entries-Maskless low high (entry ∷ db) h = (h.0.3, entries-Maskless low high db h.1)

  pub IsSound-Maskless : (m : Memory) → IsSound m → All (λ entry. Maskless entry.1) m.database
  IsSound-Maskless m s = entries-Maskless m.scope_start m.scope_end m.database s.entries

  pub remove_of-IsSound : (o : Option Lease) (m : Memory) → IsSound m → IsSound (remove_of o m)
  remove_of-IsSound none m s = s
  remove_of-IsSound (some lease) m s = elim (Option-cases lease.yiaddr) [
    | inl e ↦ rw (e) s
    | inr (net, e) ↦ rw (e) (remove_lease-IsSound (ipnet.addr net) m s)
  ]
