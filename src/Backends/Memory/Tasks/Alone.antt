-- ===== src/Backends/Memory/Tasks/Alone.antt =====
-- A task that runs alone does what its handler does; two that run together can offer one address.
use rsdhcp.Backends.{granted, no_lease_available, panicked, refused}
use rsdhcp.Backends.Memory.{chosen_address, handle_discover, offer_address, offered_lease}
use rsdhcp.Backends.Memory.Database.{
  Memory, get_exprired_lease_ip_addr, get_lease_for_ip, get_unused_ip_addr, lookup, store_lease,
  unused_loop,
}
use rsdhcp.Backends.Memory.Params.{process_params}
use rsdhcp.Backends.Memory.Tasks.{
  Move, Task, chosen, codes_of, discover, exhausted, expired, finished, free, idle, no_more,
  no_network, no_params, offer, scanned, scanning, store, storing, taken,
}
use rsdhcp.External.{Chrono, Ipnet}
use rsdhcp.Prelude.{
  Option, Option-cases, arith, inl, inr, none, refl, some, some-eq, suc, zero, ℕ, ◌+◌, ◌-◌, ◌≡◌,
}
use rsdhcp.Protocol.Packet.{DhcpPacket}
use rsdhcp.Protocol.Value.{Ipv4Addr}

module _ ⦃ipnet : Ipnet⦄ ⦃chrono : Chrono⦄ where
  -- The steps of one task, with no other task between them.
  pub data Runs : Memory → Task → Memory → Task → Type 0 where
    rest : (m : Memory) (t : Task) → Runs m t m t
    step :
        (m m' m'' : Memory) (t t' t'' : Task)
        → Move m t m' t'
        → Runs m' t' m'' t''
        → Runs m t m'' t''

  pub Runs-Runs :
      {m m' m'' : Memory} {t t' t'' : Task} → Runs m t m' t' → Runs m' t' m'' t'' → Runs m t m'' t''
  Runs-Runs (rest _ _) more = more
  Runs-Runs (step m v m' t u t' move first) more = step m v _ t u _ move (Runs-Runs first more)

  -- Where the loop over the scope ends.
  abbrev after_scan : DhcpPacket → Option Ipv4Addr → Task
  after_scan packet (some ip) = chosen packet ip
  after_scan packet none = scanned packet

  scan-Runs :
      (m : Memory) (packet : DhcpPacket) (rounds : ℕ) (ip : Ipv4Addr)
      → rounds ≡ m.scope_end - ip
      → Runs m (scanning packet ip) m (after_scan packet (unused_loop rounds ip m.database))
  unfolding unused_loop get_lease_for_ip
  scan-Runs m packet zero ip e =
      step m m m _ _ _ (no_more packet ip (omega arith)) (rest m (scanned packet))
  scan-Runs m packet (suc rounds) ip e = elim (Option-cases (lookup ip m.database)) [
    | inl k ↦ rw (k) (step m m m _ _ _ (free packet ip (omega arith) k) (rest m (chosen packet ip)))
    | inr (lease, k) ↦ rw (k) (
        step m m m _ _ _ (taken packet ip lease (omega arith) k)
          (scan-Runs m packet rounds (ip + 1) (omega arith)))
  ]

  -- From the start of a discover to the choice of an address, if there is one.
  pub choice-Runs :
      (now : chrono.DateTime) (packet : DhcpPacket) (m : Memory) (ip : Ipv4Addr)
      → chosen_address (get_unused_ip_addr m) (get_exprired_lease_ip_addr now m) ≡ some ip
      → Runs m idle m (chosen packet ip)
  unfolding get_unused_ip_addr get_exprired_lease_ip_addr
  choice-Runs now packet m ip e = step m m m _ _ _ (discover packet) (
      Runs-Runs (scan-Runs m packet (m.scope_end - m.scope_start) m.scope_start refl)
        (elim (Option-cases (unused_loop (m.scope_end - m.scope_start) m.scope_start m.database)) [
          | inr (a, k) ↦
              let same : a ≡ ip = some-eq (rw (k) at e) in rw (k, same) (rest m (chosen packet ip))
          | inl k ↦
              rw (k)
                (step m m m _ _ _ (expired now packet ip (rw (k) at e)) (rest m (chosen packet ip)))
        ]))

  choice-Runs-none :
      (now : chrono.DateTime) (packet : DhcpPacket) (m : Memory)
      → chosen_address (get_unused_ip_addr m) (get_exprired_lease_ip_addr now m) ≡ none
      → Runs m idle m (finished (refused no_lease_available))
  unfolding get_unused_ip_addr get_exprired_lease_ip_addr
  choice-Runs-none now packet m e = step m m m _ _ _ (discover packet) (
      Runs-Runs (scan-Runs m packet (m.scope_end - m.scope_start) m.scope_start refl)
        (elim (Option-cases (unused_loop (m.scope_end - m.scope_start) m.scope_start m.database)) [
          | inr (a, k) ↦ let bad : some a ≡ none = rw (k) at e in cc
          | inl k ↦ rw (k) (
              step m m m _ _ _ (exhausted now packet (rw (k) at e))
                (rest m (finished (refused no_lease_available))))
        ]))

  offer_address-Runs :
      (now : chrono.DateTime) (packet : DhcpPacket) (m : Memory) (ip : Ipv4Addr)
      → Runs m
          (chosen packet ip)
          (offer_address now packet m ip).1
          (finished (offer_address now packet m ip).0)
  unfolding offer_address
  offer_address-Runs now packet m ip = elim (Option-cases (ipnet.with_netmask ip m.netmask_addr)) [
    | inl k ↦
        rw (offer_address, k)
          (step m m m _ _ _ (no_network packet ip k) (rest m (finished panicked)))
    | inr (net, k) ↦ elim (Option-cases (process_params m (codes_of packet))) [
      | inl l ↦
          rw (offer_address, k, l)
            (step m m m _ _ _ (no_params packet ip l) (rest m (finished panicked)))
      | inr (params, l) ↦
          let lease = offered_lease now packet net params in
          rw (offer_address, k, l)
            (step m m (store_lease lease m) _ (storing lease) _ (offer now packet ip net params k l)
              (step m (store_lease lease m) (store_lease lease m) _ _ _ (store lease)
                (rest (store_lease lease m) (finished (granted lease)))))
    ]
  ]

  -- With no other task between its steps, a discover comes from its start to the result and the memory
  -- that the handler gives in one piece.
  pub handle_discover-Runs :
      (now : chrono.DateTime) (recv_ip : Ipv4Addr) (packet : DhcpPacket) (m : Memory)
      → Runs m idle
          (handle_discover now recv_ip packet m).1
          (finished (handle_discover now recv_ip packet m).0)
  unfolding handle_discover
  handle_discover-Runs now recv_ip packet m =
      elim (Option-cases
        (chosen_address (get_unused_ip_addr m) (get_exprired_lease_ip_addr now m))) [
          | inl e ↦ rw (handle_discover, e) (choice-Runs-none now packet m e)
          | inr (ip, e) ↦
              rw (handle_discover, e)
                (Runs-Runs (choice-Runs now packet m ip e) (offer_address-Runs now packet m ip))
        ]
