-- ===== src/Server/Destination.antt =====
-- Where a reply goes, against section 4.1 of RFC 2131.
use rsdhcp.Prelude.{
  ==_iff, ==_no, ==_yes, Bool-cases, Option, arith, false, inl, inr, none, refl, some, subst, true,
  ℕ, ◌/◌, ◌==◌, ◌^◌, ◌↔◌, ◌≡◌, ◌⊎◌,
}
use rsdhcp.Protocol.Enums.{MessageType, neg_acknowledge}
use rsdhcp.Protocol.Errors.{Result, err, no_return_address, ok}
use rsdhcp.Protocol.Packet.{DhcpPacket, message_type, return_broadcast}
use rsdhcp.Protocol.Value.{Ipv4Addr}
use rsdhcp.Server.{SocketAddr, determine_response_dest, is_nak}

abbrev pub at : Ipv4Addr → ℕ → SocketAddr
at ip port = record { ip = ip; port = port }

-- The cases of the section, in its order. An address of 0 is no address.
pub data IsDestination (p r : DhcpPacket) : Result SocketAddr → Type 0 where
  to_relay : ¬ (p.giaddr ≡ 0) → IsDestination p r (ok (at p.giaddr 67))
  nak_broadcast :
      p.giaddr ≡ 0
      → message_type r ≡ some neg_acknowledge
      → IsDestination p r (ok (at 0xffff_ffff 68))
  to_current_address :
      p.giaddr ≡ 0
      → ¬ (message_type r ≡ some neg_acknowledge)
      → ¬ (p.ciaddr ≡ 0)
      → IsDestination p r (ok (at p.ciaddr 68))
  broadcast_flag :
      p.giaddr ≡ 0
      → ¬ (message_type r ≡ some neg_acknowledge)
      → p.ciaddr ≡ 0
      → (p.flags / 2 ^ 15 ≡ 1)
      → IsDestination p r (ok (at 0xffff_ffff 68))
  no_unicast :
      p.giaddr ≡ 0
      → ¬ (message_type r ≡ some neg_acknowledge)
      → p.ciaddr ≡ 0
      → ¬ (p.flags / 2 ^ 15 ≡ 1)
      → ¬ (r.yiaddr ≡ 0)
      → IsDestination p r (ok (at 0xffff_ffff 68))
  nowhere :
      p.giaddr ≡ 0
      → ¬ (message_type r ≡ some neg_acknowledge)
      → p.ciaddr ≡ 0
      → ¬ (p.flags / 2 ^ 15 ≡ 1)
      → r.yiaddr ≡ 0
      → IsDestination p r (err no_return_address)

is_nak-cases :
    (o : Option MessageType)
    → ((o ≡ some neg_acknowledge) × (is_nak o ≡ true))
      ⊎ (¬ (o ≡ some neg_acknowledge) × (is_nak o ≡ false))
is_nak-cases none = inr ((λ e. cc), refl)
is_nak-cases (some neg_acknowledge) = inl (refl, refl)
is_nak-cases (some _) = inr ((λ e. cc), refl)

==-cases : (a b : ℕ) → ((a ≡ b) × ((a == b) ≡ true)) ⊎ (¬ (a ≡ b) × ((a == b) ≡ false))
==-cases a b = elim (Bool-cases (a == b)) [
  | inl t ↦ inl ((==_iff a b).0 t, t)
  | inr f ↦ inr ((λ e. ground arith), f)
]

found : (p r : DhcpPacket) → IsDestination p r (determine_response_dest p r)
unfolding determine_response_dest return_broadcast
found p r = elim (==-cases p.giaddr 0) [
  | inr (n, f) ↦ rw (f) (to_relay n)
  | inl (g, t) ↦ rw (t) (elim (is_nak-cases (message_type r)) [
    | inl (e, k) ↦ rw (k) (nak_broadcast g e)
    | inr (n, k) ↦ rw (k) (elim (==-cases p.ciaddr 0) [
      | inr (m, f) ↦ rw (f) (to_current_address g n m)
      | inl (c, u) ↦ rw (u) (elim (==-cases (p.flags / 2 ^ 15) 1) [
        | inl (b, v) ↦ rw (v) (broadcast_flag g n c b)
        | inr (m, f) ↦ rw (f) (elim (==-cases r.yiaddr 0) [
          | inl (y, w) ↦ rw (w) (nowhere g n c m y)
          | inr (y, w) ↦ rw (w) (no_unicast g n c m y)
        ])
      ])
    ])
  ])
]

is_nak-no : {o : Option MessageType} → ¬ (o ≡ some neg_acknowledge) → is_nak o ≡ false
is_nak-no {o} n = elim (is_nak-cases o) [ inl (e, t) ↦ absurd (n e) | inr (m, f) ↦ f ]

only :
    (p r : DhcpPacket) (d : Result SocketAddr)
    → IsDestination p r d
    → determine_response_dest p r ≡ d
unfolding determine_response_dest return_broadcast
only p r _ (to_relay h) = ground arith
only p r _ (nak_broadcast g e) = rw (==_yes g, e) refl
only p r _ (to_current_address g n c) = rw (==_yes g, is_nak-no n, ==_no c) refl
only p r _ (broadcast_flag g n c b) = rw (==_yes g, is_nak-no n, ==_yes c, ==_yes b) refl
only p r _ (no_unicast g n c b y) = rw (==_yes g, is_nak-no n, ==_yes c, ==_no b, ==_no y) refl
only p r _ (nowhere g n c b y) = rw (==_yes g, is_nak-no n, ==_yes c, ==_no b, ==_yes y) refl

-- The destination of a reply is the one that the section names for the request and the reply, and
-- there is an error exactly where the section names none.
pub determine_response_dest-IsDestination :
    (p r : DhcpPacket) (d : Result SocketAddr)
    → IsDestination p r d ↔ (determine_response_dest p r ≡ d)
determine_response_dest-IsDestination p r d =
    (only p r d, λ e. subst (IsDestination p r) e (found p r))
