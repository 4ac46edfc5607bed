-- ===== src/Backends/Netbox/Renewal.antt =====
-- `renew_lease`: which lease a client is granted, and when it is turned away.
use rsdhcp.Backends.{
  BackendResult, backend_error, granted, lease_mismatch_client_ip, no_lease_available, refused,
}
use rsdhcp.Backends.Netbox.Lookup.{
  asks_other, compare_ip, get_client_id, get_leases_for_client_id, lease_addr, lease_contains,
  matching, means_other, renew_among, renew_lease, renew_matching, update_from_packet,
}
use rsdhcp.Backends.Netbox.Sending.{Fails, Sends, acknowledge-cases}
use rsdhcp.Backends.Netbox.Web.{Client, NetboxDhcpLease, Request}
use rsdhcp.External.{Chrono, Ipnet}
use rsdhcp.Prelude.{
  ==_false, ==_yes, All, Bool, Bool-cases, List, Option, [], ap, arith, false, filter, inl, inr,
  none, not, refl, some, some-eq, subst, true, ℕ, ◌++◌, ◌==◌, ◌||◌, ◌∷◌, ◌≡◌, ◌≢◌, ◌⊎◌,
}
use rsdhcp.Protocol.Option.{DhcpOption, address_request, address_request_code}
use rsdhcp.Protocol.Options.{get_option}
use rsdhcp.Protocol.Packet.{DhcpPacket}
use rsdhcp.Protocol.Value.{Ipv4Addr}
use Prim.Native.String.{String}

module _ ⦃ipnet : Ipnet⦄ ⦃chrono : Chrono⦄ where
  -- The client's address, where it has one, and the address that it asks for, where it asks for
  -- one, are the lease's.
  pub record Matches (p : DhcpPacket) (l : NetboxDhcpLease) : Type 0 where
    pub current : ¬ (p.ciaddr ≡ 0) → p.ciaddr ≡ lease_addr l
    pub requested :
        (o : Ipv4Addr)
        → get_option p.options address_request_code ≡ some (address_request o)
        → o ≡ lease_addr l

  -- The first lease of a list that matches, with those before it that do not.
  pub record FirstMatch (p : DhcpPacket) (ls : List NetboxDhcpLease) (l : NetboxDhcpLease)
      : Type 0 where
    pub before : List NetboxDhcpLease
    pub after : List NetboxDhcpLease
    pub split : ls ≡ before ++ l ∷ after
    pub passed : All (λ x. ¬ Matches p x) before
    pub matches : Matches p l

  asks_other-false :
      (o : Option DhcpOption) (ip : Ipv4Addr)
      → asks_other o ip ≡ false
      → (a : Ipv4Addr) → o ≡ some (address_request a)
      → a ≡ ip
  asks_other-false o ip h a e = let h' : not (a == ip) ≡ false = rw (e) at h in ground arith

  asks_other-true :
      (o : Option DhcpOption) (ip : Ipv4Addr)
      → asks_other o ip ≡ true
      → (a : Ipv4Addr) × (o ≡ some (address_request a)) × ¬ (a ≡ ip)
  asks_other-true none ip h = cc
  asks_other-true (some (address_request a)) ip h = (a, refl, λ e. ground arith)
  asks_other-true (some _) ip h = cc

  or_false : (a b : Bool) → (a || b) ≡ false → (a ≡ false) × (b ≡ false)
  or_false false b h = (refl, h)
  or_false true b h = cc

  or_true : (a b : Bool) → (a || b) ≡ true → (a ≡ true) ⊎ (b ≡ true)
  or_true true b h = inl refl
  or_true false b h = inr h

  means_other-false : (p : DhcpPacket) (l : NetboxDhcpLease) → means_other p l ≡ false → Matches p l
  means_other-false p l h =
      let (near, asked) =
        or_false _ (asks_other (get_option p.options address_request_code) (lease_addr l)) h in
      record {
        current = λ n. ground arith;
        requested =
            asks_other-false (get_option p.options address_request_code) (lease_addr l) asked;
      }

  means_other-true : (p : DhcpPacket) (l : NetboxDhcpLease) → means_other p l ≡ true → ¬ Matches p l
  means_other-true p l h = λ m.
      elim (or_true _ (asks_other (get_option p.options address_request_code) (lease_addr l)) h) [
        | inl far ↦ elim (Bool-cases (p.ciaddr == 0)) [
          | inl t ↦ let bad : false ≡ true = rw (t) at far in cc
          | inr f ↦
              let same : p.ciaddr ≡ lease_addr l = m.current (==_false f) in
              let bad : false ≡ true = rw (f, ==_yes same) at far in cc
        ]
        | inr asked ↦
            let (a, e, n) =
              asks_other-true (get_option p.options address_request_code) (lease_addr l) asked in
            n (m.requested a e)
      ]

  matching-some :
      (p : DhcpPacket) (ls : List NetboxDhcpLease) (l : NetboxDhcpLease)
      → matching p ls ≡ some l
      → FirstMatch p ls l
  unfolding matching
  matching-some p [] l e = cc
  matching-some p (x ∷ xs) l e = elim (Bool-cases (means_other p x)) [
    | inl t ↦
        let rest = matching-some p xs l (rw (matching, t) at e) in
        record {
          before = x ∷ rest.before;
          after = rest.after;
          split = ap (λ y. x ∷ y) rest.split;
          passed = (means_other-true p x t, rest.passed);
          matches = rest.matches;
        }
    | inr f ↦
        let same : x ≡ l = some-eq (rw (matching, f) at e) in
        record {
          before = [];
          after = xs;
          split = ap (λ y. y ∷ xs) same;
          passed = tt;
          matches = subst (Matches p) same (means_other-false p x f);
        }
  ]

  matching-none :
      (p : DhcpPacket) (ls : List NetboxDhcpLease)
      → matching p ls ≡ none
      → All (λ x. ¬ Matches p x) ls
  unfolding matching
  matching-none p [] e = tt
  matching-none p (x ∷ xs) e = elim (Bool-cases (means_other p x)) [
    | inl t ↦ (means_other-true p x t, matching-none p xs (rw (matching, t) at e))
    | inr f ↦ let bad : some x ≡ none = rw (matching, f) at e in cc
  ]

module _ ⦃ipnet : Ipnet⦄ ⦃chrono : Chrono⦄ {W Response : Type 0} (client : Client W Response)
    (lease_url : List ℕ) (rounds : ℕ) where
  -- The lease as it is saved.
  abbrev pub renewed_lease : DhcpPacket → NetboxDhcpLease → NetboxDhcpLease
  renewed_lease p l = record (update_from_packet p l) { acknowledged = true }

  -- What becomes of a renewal, with the client's leases on the subnet and the world after they were
  -- listed.
  pub data IsRenewal (p : DhcpPacket) (ls : List NetboxDhcpLease) (w : W)
      : BackendResult NetboxDhcpLease → W → Type 0 where
    unknown_client : ls ≡ [] → IsRenewal p ls w (refused no_lease_available) w
    mismatch :
        ls ≢ []
        → All (λ l. ¬ Matches p l) ls
        → IsRenewal p ls w (refused lease_mismatch_client_ip) w
    renewed :
        (l : NetboxDhcpLease) (w' : W)
        → FirstMatch p ls l
        → Sends client (Request.put (update_from_packet p l).url (renewed_lease p l) ∷ []) w w'
        → IsRenewal p ls w (granted (renewed_lease p l)) w'
    unsaved :
        (l : NetboxDhcpLease) (x : String) (w' : W)
        → FirstMatch p ls l
        → Fails client (Request.put (update_from_packet p l).url (renewed_lease p l)) w w' x
        → IsRenewal p ls w (refused (backend_error x)) w'

  renew_matching-IsRenewal :
      (p : DhcpPacket) (ls : List NetboxDhcpLease) (o : Option NetboxDhcpLease) (w : W)
      → ls ≢ []
      → matching p ls ≡ o
      → IsRenewal p ls w
          (renew_matching client lease_url rounds p o w).0
          (renew_matching client lease_url rounds p o w).1
  renew_matching-IsRenewal p ls none w some_lease e = mismatch some_lease (matching-none p ls e)
  renew_matching-IsRenewal p ls (some l) w some_lease e =
      elim (acknowledge-cases client (update_from_packet p l) w) [
        | inl (w', sent, k) ↦ rw (k) (renewed l w' (matching-some p ls l e) sent)
        | inr (x, w', lost, k) ↦ rw (k) (unsaved l x w' (matching-some p ls l e) lost)
      ]

  renew_among-IsRenewal :
      (p : DhcpPacket) (ls : List NetboxDhcpLease) (w : W)
      → IsRenewal p ls w
          (renew_among client lease_url rounds p ls w).0
          (renew_among client lease_url rounds p ls w).1
  renew_among-IsRenewal p [] w = unknown_client refl
  renew_among-IsRenewal p (l ∷ ls) w =
      renew_matching-IsRenewal p (l ∷ ls) (matching p (l ∷ ls)) w (λ e. cc) refl

  -- Of the leases that are listed for the client's identifier, those on the network of the client's
  -- address count, or of the receiving address if it has none. Without any, the client is left
  -- alone; if none of them is the address that it has and asks for, that is a mismatch; and otherwise the
  -- first that is, is granted with the marks of the packet if it could be saved so.
  pub renew_lease-IsRenewal :
      (recv_ip : Ipv4Addr) (p : DhcpPacket) (ls : List NetboxDhcpLease) (w w' : W)
      → get_leases_for_client_id client lease_url rounds (get_client_id p) w ≡ (granted ls, w')
      → IsRenewal p
          (filter (lease_contains (compare_ip recv_ip p)) ls)
          w'
          (renew_lease client lease_url rounds recv_ip p w).0
          (renew_lease client lease_url rounds recv_ip p w).1
  unfolding renew_lease
  renew_lease-IsRenewal recv_ip p ls w w' e =
      rw (e) (renew_among-IsRenewal p (filter (lease_contains (compare_ip recv_ip p)) ls) w')
