-- ===== src/Backends/Memory/Granted.antt =====
-- What an offer does to the leases of the store, and how it is granted.
use rsdhcp.Backends.{Lease, granted, is_current, no_lease_available, refused}
use rsdhcp.Backends.Memory.{handle_discover, handle_request_selecting, requested_address}
use rsdhcp.Backends.Memory.Database.{Memory, get_lease_for_ip, store_at, store_lease}
use rsdhcp.Backends.Memory.Laws.{Distinct, lookup-insert}
use rsdhcp.Backends.Memory.Offers.{Available, handle_discover-Offered}
use rsdhcp.External.{Chrono, Ipnet}
use rsdhcp.Prelude.{==_no, ==_yes, false, inl, inr, refl, some, some-eq, subst, sym, true, ◌∙◌, ◌≡◌}
use rsdhcp.Protocol.Option.{address_request, address_request_code}
use rsdhcp.Protocol.Options.{get_option}
use rsdhcp.Protocol.Packet.{DhcpPacket}
use rsdhcp.Protocol.Value.{Ipv4Addr}

module _ ⦃ipnet : Ipnet⦄ ⦃chrono : Chrono⦄ where
  expired_taken :
      (now : chrono.DateTime) (m : Memory) (ip : Ipv4Addr) (held : Lease)
      → Available now m ip
      → get_lease_for_ip ip m ≡ some held
      → is_current now held ≡ true
      → ⊥
  unfolding Available
  expired_taken now m ip held (inl (low, high, free)) e c = cc
  expired_taken now m ip held (inr (old, f, expired)) e c =
      let same : old ≡ held = some-eq (sym f ∙ e) in
      let late : is_current now held ≡ false = subst (λ l. is_current now l ≡ false) same expired in
      cc

  stored_under :
      (lease : Lease) (net : ipnet.Ipv4Net) (m : Memory) (other : Ipv4Addr)
      → lease.yiaddr ≡ some net
      → (get_lease_for_ip (ipnet.addr net) (store_lease lease m) ≡ some lease)
        × (¬ (other ≡ ipnet.addr net)
            → get_lease_for_ip other (store_lease lease m) ≡ get_lease_for_ip other m)
  unfolding store_lease get_lease_for_ip
  stored_under lease net m other e =
      subst
        (λ o.
          (get_lease_for_ip (ipnet.addr net) (store_at o lease m) ≡ some lease)
          × (¬ (other ≡ ipnet.addr net)
              → get_lease_for_ip other (store_at o lease m) ≡ get_lease_for_ip other m))
        (sym e) (lookup-insert (ipnet.addr net) other lease m.database)

  -- An offer takes no lease from anybody: every lease that is current stays where it is, and the
  -- offered address, which had no current lease, finds the offered lease.
  pub handle_discover-keeps :
      (now : chrono.DateTime) (recv_ip : Ipv4Addr) (packet : DhcpPacket) (m m' : Memory)
      (lease : Lease)
      → Distinct m.database
      → handle_discover now recv_ip packet m ≡ (granted lease, m')
      → (net : ipnet.Ipv4Net) × (lease.yiaddr ≡ some net)
        × (get_lease_for_ip (ipnet.addr net) m' ≡ some lease)
        × ((other : Ipv4Addr) (held : Lease)
            → get_lease_for_ip other m ≡ some held
            → is_current now held ≡ true
            → (¬ (other ≡ ipnet.addr net)) × (get_lease_for_ip other m' ≡ some held))
  handle_discover-keeps now recv_ip packet m m' lease d e =
      let o = handle_discover-Offered now recv_ip packet m m' lease d e in
      let apart : (other : Ipv4Addr) (held : Lease)
          → get_lease_for_ip other m ≡ some held
          → is_current now held ≡ true
          → ¬ (other ≡ ipnet.addr o.net) =
        λ other held k c same.
          expired_taken now m o.ip held o.available
            (subst (λ x. get_lease_for_ip x m ≡ some held) (same ∙ o.same_address) k) c in
      (
        o.net,
        o.address,
        rw (o.stored) ((stored_under lease o.net m 0 o.address).0),
        λ other held k c. (
          apart other held k c,
          rw (o.stored) ((stored_under lease o.net m other o.address).1 (apart other held k c) ∙ k),
        ),
      )

  -- What was offered is what is acknowledged: a request in the SELECTING state for the offered address
  -- with the discover's transaction is granted the offered lease, and one with another transaction
  -- is refused. The state stays as it is.
  pub handle_request_selecting-handle_discover :
      (now later : chrono.DateTime) (recv_ip : Ipv4Addr) (packet request_packet : DhcpPacket)
      (m m' : Memory) (lease : Lease) (net : ipnet.Ipv4Net)
      → Distinct m.database
      → handle_discover now recv_ip packet m ≡ (granted lease, m')
      → lease.yiaddr ≡ some net
      → get_option request_packet.options address_request_code
        ≡ some (address_request (ipnet.addr net))
      → (request_packet.xid ≡ packet.xid
          → handle_request_selecting later recv_ip request_packet m' ≡ (granted lease, m'))
        × (¬ (request_packet.xid ≡ packet.xid)
            → handle_request_selecting later recv_ip request_packet m'
              ≡ (refused no_lease_available, m'))
  unfolding handle_request_selecting requested_address
  handle_request_selecting-handle_discover now later recv_ip packet request_packet m m' lease net d
        e a asks =
      let o = handle_discover-Offered now recv_ip packet m m' lease d e in
      let found : get_lease_for_ip (ipnet.addr net) m' ≡ some lease =
        rw (o.stored) ((stored_under lease net m 0 a).0) in
      (
        (λ same.
            rw
              (
                handle_request_selecting,
                asks,
                requested_address,
                found,
                ==_yes (o.transaction ∙ sym same),
              )
              refl),
        (λ other.
            rw
              (
                handle_request_selecting,
                asks,
                requested_address,
                found,
                ==_no (λ q. other (sym q ∙ o.transaction)),
              )
              refl),
      )
