-- ===== src/Backends/Memory/Offers.antt =====
-- The address that a discover is offered, and the leases that stay as they were.
use rsdhcp.Backends.{
  BackendError, BackendResult, Lease, granted, is_current, no_lease_available, panicked, refused,
}
use rsdhcp.Backends.Memory.{
  chosen_address, handle_discover, offer_address, offered_lease, requested_params,
}
use rsdhcp.Backends.Memory.Database.{
  Memory, expired_in, get_exprired_lease_ip_addr, get_lease_for_ip, get_unused_ip_addr, store_lease,
  unused_loop,
}
use rsdhcp.Backends.Memory.Laws.{
  Distinct, expired_in-none, expired_in-some, unused_loop-none, unused_loop-some,
}
use rsdhcp.Backends.Memory.Maskless.{Maskless, options_of-Maskless, process_params-Lacking}
use rsdhcp.Backends.Memory.Params.{process_params}
use rsdhcp.External.{Chrono, Ipnet}
use rsdhcp.Prelude.{
  List, Option-cases, ap, arith, false, inl, inr, none, refl, some, subst, sym, true, ℕ, ◌-◌, ◌<◌,
  ◌∙◌, ◌≡◌, ◌≢◌, ◌≤◌, ◌⊎◌,
}
use rsdhcp.Protocol.Option.{DhcpOption, parameter_list_code}
use rsdhcp.Protocol.Options.{get_option}
use rsdhcp.Protocol.Packet.{DhcpPacket}
use rsdhcp.Protocol.Value.{Ipv4Addr}

module _ ⦃ipnet : Ipnet⦄ ⦃chrono : Chrono⦄ where
  -- An address of the scope that no lease holds, or one whose lease has expired.
  unfoldable pub Available : chrono.DateTime → Memory → Ipv4Addr → Type 0
  Available now m ip =
      ((m.scope_start ≤ ip) × (ip < m.scope_end) × (get_lease_for_ip ip m ≡ none))
      ⊎ ((old : Lease) × (get_lease_for_ip ip m ≡ some old) × (is_current now old ≡ false))

  -- No address from the start of the scope to the last before its end is without a lease, and every
  -- lease is current.
  unfoldable pub Exhausted : chrono.DateTime → Memory → Type 0
  Exhausted now m =
      ((ip : Ipv4Addr) → m.scope_start ≤ ip → ip < m.scope_end → get_lease_for_ip ip m ≢ none)
      × ((ip : Ipv4Addr) (lease : Lease)
          → get_lease_for_ip ip m ≡ some lease
          → is_current now lease ≡ true)

  pub chosen-cases :
      (now : chrono.DateTime) (m : Memory)
      → Distinct m.database
      → ((chosen_address (get_unused_ip_addr m) (get_exprired_lease_ip_addr now m) ≡ none)
          × Exhausted now m)
        ⊎ ((ip : Ipv4Addr) × (chosen_address
                (get_unused_ip_addr m)
                (get_exprired_lease_ip_addr now m)
              ≡ some ip)
            × Available now m ip)
  unfolding get_unused_ip_addr get_exprired_lease_ip_addr get_lease_for_ip Available Exhausted
  chosen-cases now m d =
      elim (Option-cases (unused_loop (m.scope_end - m.scope_start) m.scope_start m.database)) [
        | inr (ip, e) ↦
            let (low, high, free, first) = unused_loop-some _ m.scope_start ip m.database e in
            inr (ip, rw (e) refl, inl (low, omega arith, free))
        | inl none_free ↦ elim (Option-cases (expired_in now m.database)) [
          | inr (ip, e) ↦
              inr (ip, rw (none_free, e) refl, inr (expired_in-some now m.database ip d e))
          | inl all_current ↦ inl (
            rw (none_free, all_current) refl,
            (
              (λ ip low high.
                  unused_loop-none _ m.scope_start m.database none_free ip low (omega arith)),
              expired_in-none now m.database all_current,
            ),
          )
        ]
      ]

  -- What an offer is.
  pub record Offered (now : chrono.DateTime) (packet : DhcpPacket) (m : Memory) (lease : Lease)
      (m' : Memory) : Type 0 where
    pub ip : Ipv4Addr
    pub net : ipnet.Ipv4Net
    pub available : Available now m ip
    pub network : ipnet.with_netmask ip m.netmask_addr ≡ some net
    pub address : lease.yiaddr ≡ some net
    pub same_address : ipnet.addr net ≡ ip
    pub transaction : lease.xid ≡ packet.xid
    pub granted_now : lease.lease_time ≡ now
    pub maskless : Maskless lease
    pub stored : m' ≡ store_lease lease m

  refused-eq : {x y : BackendError} → ◌≡◌ {A = BackendResult Lease} (refused x) (refused y) → x ≡ y
  refused-eq e = cc

  granted-eq : {a b : Lease} → granted a ≡ granted b → a ≡ b
  granted-eq e = cc

  pub offered_lease-Offered :
      (now : chrono.DateTime) (packet : DhcpPacket) (m : Memory) (ip : Ipv4Addr)
      (net : ipnet.Ipv4Net) (params : List DhcpOption) (codes : List ℕ)
      → Available now m ip
      → ipnet.with_netmask ip m.netmask_addr ≡ some net
      → process_params m codes ≡ some params
      → Offered now packet m
          (offered_lease now packet net params)
          (store_lease (offered_lease now packet net params) m)
  unfolding offered_lease Maskless
  offered_lease-Offered now packet m ip net params codes free k l = record {
    ip = ip;
    net = net;
    available = free;
    network = k;
    address = refl;
    same_address = ipnet.addr-with_netmask ip m.netmask_addr net k;
    transaction = refl;
    granted_now = refl;
    maskless = options_of-Maskless params (process_params-Lacking m codes params l);
    stored = refl;
  }

  offer_address-Offered :
      (now : chrono.DateTime) (packet : DhcpPacket) (m : Memory) (ip : Ipv4Addr) (lease : Lease)
      (m' : Memory)
      → Available now m ip
      → offer_address now packet m ip ≡ (granted lease, m')
      → Offered now packet m lease m'
  unfolding offer_address
  offer_address-Offered now packet m ip lease m' free e =
      elim (Option-cases (ipnet.with_netmask ip m.netmask_addr)) [
        | inl panic ↦
            let bad : ◌≡◌ {A = BackendResult Lease × Memory} (panicked, m) (granted lease, m') =
              rw (offer_address, panic) at e in
            cc
        | inr (net, k) ↦
            elim (Option-cases (
              process_params m
                (requested_params (get_option packet.options parameter_list_code)))) [
                  | inl panic ↦
                      let bad : ◌≡◌ {A = BackendResult Lease × Memory} (panicked, m)
                          (granted lease, m') =
                        rw (offer_address, k, panic) at e in
                      cc
                  | inr (params, l) ↦
                      let e' : ◌≡◌ {A = BackendResult Lease × Memory}
                          (
                            granted (offered_lease now packet net params),
                            store_lease (offered_lease now packet net params) m,
                          )
                          (granted lease, m') =
                        rw (offer_address, k, l) at e in
                      let same : offered_lease now packet net params ≡ lease =
                        granted-eq (ap (λ x. x.0) e') in
                      subst (λ x. Offered now packet m lease x) (ap (λ x. x.1) e')
                        (subst
                          (λ x.
                            Offered now packet m x
                              (store_lease (offered_lease now packet net params) m))
                          same
                          (offered_lease-Offered now packet m ip net params
                            (requested_params (get_option packet.options parameter_list_code)) free
                            k l))
                ]
      ]

  -- A discover that is granted is offered an address of the scope that no lease holds, or one whose
  -- lease has expired; the lease has the transaction of the discover and is stored.
  pub handle_discover-Offered :
      (now : chrono.DateTime) (recv_ip : Ipv4Addr) (packet : DhcpPacket) (m m' : Memory)
      (lease : Lease)
      → Distinct m.database
      → handle_discover now recv_ip packet m ≡ (granted lease, m')
      → Offered now packet m lease m'
  unfolding handle_discover
  handle_discover-Offered now recv_ip packet m m' lease d e = elim (chosen-cases now m d) [
    | inl (lacking, full) ↦
        let bad : ◌≡◌ {A = BackendResult Lease × Memory} (refused no_lease_available, m)
            (granted lease, m') =
          rw (handle_discover, lacking) at e in
        cc
    | inr (ip, k, free) ↦
        offer_address-Offered now packet m ip lease m' free (rw (handle_discover, k) at e)
  ]

  offer_address-granted :
      (now : chrono.DateTime) (packet : DhcpPacket) (m m' : Memory) (ip : Ipv4Addr)
      (x : BackendError)
      → offer_address now packet m ip ≢ (refused x, m')
  unfolding offer_address
  offer_address-granted now packet m m' ip x = λ e.
      elim (Option-cases (ipnet.with_netmask ip m.netmask_addr)) [
        | inl panic ↦
            let bad : ◌≡◌ {A = BackendResult Lease × Memory} (panicked, m) (refused x, m') =
              rw (offer_address, panic) at e in
            cc
        | inr (net, k) ↦
            elim (Option-cases (
              process_params m
                (requested_params (get_option packet.options parameter_list_code)))) [
                  | inl panic ↦
                      let bad : ◌≡◌ {A = BackendResult Lease × Memory} (panicked, m)
                          (refused x, m') =
                        rw (offer_address, k, panic) at e in
                      cc
                  | inr (params, l) ↦
                      let bad : ◌≡◌ {A = BackendResult Lease × Memory}
                          (
                            granted (offered_lease now packet net params),
                            store_lease (offered_lease now packet net params) m,
                          )
                          (refused x, m') =
                        rw (offer_address, k, l) at e in
                      cc
                ]
      ]

  refused-Exhausted :
      (now : chrono.DateTime) (recv_ip : Ipv4Addr) (packet : DhcpPacket) (m m' : Memory)
      (x : BackendError)
      → Distinct m.database
      → handle_discover now recv_ip packet m ≡ (refused x, m')
      → Exhausted now m × (x ≡ no_lease_available) × (m' ≡ m)
  unfolding handle_discover
  refused-Exhausted now recv_ip packet m m' x d e = elim (chosen-cases now m d) [
    | inl (lacking, full) ↦
        let e' : ◌≡◌ {A = BackendResult Lease × Memory} (refused no_lease_available, m)
            (refused x, m') =
          rw (handle_discover, lacking) at e in
        (full, refused-eq (ap (λ r. r.0) (sym e')), ap (λ r. r.1) (sym e'))
    | inr (ip, k, free) ↦
        absurd (offer_address-granted now packet m m' ip x (rw (handle_discover, k) at e))
  ]

  Exhausted-Available :
      (now : chrono.DateTime) (m : Memory) (ip : Ipv4Addr) → Exhausted now m → ¬ Available now m ip
  unfolding Exhausted Available
  Exhausted-Available now m ip (full, current) (inl (low, high, free)) = full ip low high free
  Exhausted-Available now m ip (full, current) (inr (old, held, expired)) =
      let bad : true ≡ false = sym (current ip old held) ∙ expired in cc

  Exhausted-refused :
      (now : chrono.DateTime) (recv_ip : Ipv4Addr) (packet : DhcpPacket) (m : Memory)
      → Distinct m.database
      → Exhausted now m
      → handle_discover now recv_ip packet m ≡ (refused no_lease_available, m)
  unfolding handle_discover
  Exhausted-refused now recv_ip packet m d full = elim (chosen-cases now m d) [
    | inl (lacking, same) ↦ rw (handle_discover, lacking) refl
    | inr (ip, k, free) ↦ absurd (Exhausted-Available now m ip full free)
  ]

  -- A discover is refused exactly when each address from the start of the scope to the last before
  -- its end has a lease, and every lease is current. The end itself is never offered and does not count.
  -- The error is that there is no lease, and nothing is stored.
  pub handle_discover-Exhausted :
      (now : chrono.DateTime) (recv_ip : Ipv4Addr) (packet : DhcpPacket) (m : Memory)
      → Distinct m.database
      → ((x : BackendError) (m' : Memory)
          → handle_discover now recv_ip packet m ≡ (refused x, m')
          → Exhausted now m × (x ≡ no_lease_available) × (m' ≡ m))
        × (Exhausted now m → handle_discover now recv_ip packet m ≡ (refused no_lease_available, m))
  handle_discover-Exhausted now recv_ip packet m d = (
    (λ x m' e. refused-Exhausted now recv_ip packet m m' x d e),
    Exhausted-refused now recv_ip packet m d,
  )
