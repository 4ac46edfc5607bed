-- ===== src/Backends/Memory/Tasks/Race.antt =====
-- Two discovers that run at the same time can be offered one address.
use rsdhcp.Backends.{granted}
use rsdhcp.Backends.Memory.{chosen_address, offered_lease}
use rsdhcp.Backends.Memory.Database.{
  Memory, get_exprired_lease_ip_addr, get_unused_ip_addr, store_lease,
}
use rsdhcp.Backends.Memory.Params.{process_params}
use rsdhcp.Backends.Memory.Tasks.{
  Move, Reach, System, Task, at_index, chosen, codes_of, finished, here, idle, idle_system, next,
  offer, pick, store, storing,
}
use rsdhcp.Backends.Memory.Tasks.Alone.{Runs, Runs-Runs, choice-Runs, rest, step}
use rsdhcp.External.{Chrono, Ipnet}
use rsdhcp.Prelude.{==_no, ==_yes, List, arith, refl, some, subst, sym, ℕ, ◌∙◌, ◌≡◌}
use rsdhcp.Protocol.Option.{DhcpOption}
use rsdhcp.Protocol.Packet.{DhcpPacket}
use rsdhcp.Protocol.Value.{Ipv4Addr}

module _ ⦃ipnet : Ipnet⦄ ⦃chrono : Chrono⦄ where
  Reach-Reach : {s t u : System} → Reach s t → Reach t u → Reach s u
  Reach-Reach r here = r
  Reach-Reach r (next q st) = next (Reach-Reach r q) st

  -- A system where one task has moved, and the others stand where they stood.
  record Advanced (s : System) (i : ℕ) (m : Memory) (t : Task) : Type 0 where
    last : System
    reach : Reach s last
    memory_is : last.memory ≡ m
    task_is : last.task i ≡ t
    others : (j : ℕ) → ¬ (i ≡ j) → last.task j ≡ s.task j

  Runs-Advanced :
      {m m' : Memory} {t t' : Task} (s : System) (i : ℕ)
      → Runs m t m' t'
      → s.memory ≡ m
      → s.task i ≡ t
      → Advanced s i m' t'
  Runs-Advanced s i (rest m t) em et = record {
    last = s;
    reach = here;
    memory_is = em;
    task_is = et;
    others = λ j n. refl;
  }
  Runs-Advanced s i (step m v m' t u t' move more) em et =
      let moved : Move s.memory (s.task i) v u =
        subst (λ x. Move x (s.task i) v u) (sym em) (subst (λ x. Move m x v u) (sym et) move) in
      let s1 : System = record { memory = v; task = at_index s.task i u } in
      let further = Runs-Advanced s1 i more refl (rw (==_yes {a = i} {b = i} refl) refl) in
      record {
        last = further.last;
        reach = Reach-Reach (next here (pick i v u moved)) further.reach;
        memory_is = further.memory_is;
        task_is = further.task_is;
        others = λ j n. further.others j n ∙ (rw (==_no n) refl);
      }

  -- From idle to a lease that is about to be stored, with the memory as it was.
  offer-Runs :
      (now : chrono.DateTime) (packet : DhcpPacket) (m : Memory) (ip : Ipv4Addr)
      (net : ipnet.Ipv4Net) (params : List DhcpOption)
      → chosen_address (get_unused_ip_addr m) (get_exprired_lease_ip_addr now m) ≡ some ip
      → ipnet.with_netmask ip m.netmask_addr ≡ some net
      → process_params m (codes_of packet) ≡ some params
      → Runs m idle m (storing (offered_lease now packet net params))
  offer-Runs now packet m ip net params e k l = Runs-Runs (choice-Runs now packet m ip e) (
      step m m m (chosen packet ip) (storing (offered_lease now packet net params))
        (storing (offered_lease now packet net params)) (offer now packet ip net params k l)
        (rest m (storing (offered_lease now packet net params))))

  -- Whenever a store has an address to offer and can make leases of it for two clients, the two
  -- discovers can interleave so that both are granted that address: each chooses before the other stores.
  pub discover_race :
      (now : chrono.DateTime) (p q : DhcpPacket) (m : Memory) (ip : Ipv4Addr) (net : ipnet.Ipv4Net)
      (ps qs : List DhcpOption)
      → chosen_address (get_unused_ip_addr m) (get_exprired_lease_ip_addr now m) ≡ some ip
      → ipnet.with_netmask ip m.netmask_addr ≡ some net
      → process_params m (codes_of p) ≡ some ps
      → process_params m (codes_of q) ≡ some qs
      → (s : System) × Reach (idle_system m) s
        × (s.task 0 ≡ finished (granted (offered_lease now p net ps)))
        × (s.task 1 ≡ finished (granted (offered_lease now q net qs)))
        × ((offered_lease now p net ps).yiaddr ≡ (offered_lease now q net qs).yiaddr)
  unfolding offered_lease
  discover_race now p q m ip net ps qs e k lp lq =
      let a = Runs-Advanced (idle_system m) 0 (offer-Runs now p m ip net ps e k lp) refl refl in
      let b =
        Runs-Advanced a.last 1 (offer-Runs now q m ip net qs e k lq) a.memory_is
          (a.others 1 (omega arith)) in
      let lease_p = offered_lease now p net ps in
      let lease_q = offered_lease now q net qs in
      let m1 = store_lease lease_p m in
      let c =
        Runs-Advanced b.last 0
          (step m m1 m1 (storing lease_p) (finished (granted lease_p)) (finished (granted lease_p))
            (store lease_p) (rest m1 (finished (granted lease_p))))
          b.memory_is (b.others 0 (omega arith) ∙ a.task_is) in
      let m2 = store_lease lease_q m1 in
      let d =
        Runs-Advanced c.last 1
          (step m1 m2 m2 (storing lease_q) (finished (granted lease_q)) (finished (granted lease_q))
            (store lease_q) (rest m2 (finished (granted lease_q))))
          c.memory_is (c.others 1 (omega arith) ∙ b.task_is) in
      (
        d.last,
        Reach-Reach (Reach-Reach a.reach b.reach) (Reach-Reach c.reach d.reach),
        d.others 0 (omega arith) ∙ c.task_is,
        d.task_is,
        refl,
      )
