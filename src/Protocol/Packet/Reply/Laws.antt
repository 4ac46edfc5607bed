-- ===== src/Protocol/Packet/Reply/Laws.antt =====
-- What every reply owes the request, and that it can be sent.
use rsdhcp.Backends.{Lease}
use rsdhcp.External.{Chrono, Ipnet}
use rsdhcp.Prelude.{
  ==_iff, All, Bool-cases, List, Option, [], append-nil, arith, inl, inr, none, refl, replicate,
  some, some-eq, subst, ℕ, ◌++◌, ◌==◌, ◌∙◌, ◌∷◌, ◌≡◌,
}
use rsdhcp.Protocol.Enums.{boot_reply}
use rsdhcp.Protocol.Option.{DhcpOption, client_id_code, code}
use rsdhcp.Protocol.Options.{find_code, get_option}
use rsdhcp.Protocol.Packet.{DhcpPacket}
use rsdhcp.Protocol.Packet.Reply.{
  lease_options, mask_option, nak, response, response_options, to_list,
}

-- Table 3 of RFC 2131: what a reply takes over from the request.
pub record IsReplyTo (p r : DhcpPacket) : Type 0 where
  pub is_reply : r.op ≡ boot_reply
  pub same_hardware : (r.htype ≡ p.htype) × (r.hlen ≡ p.hlen) × (r.chaddr ≡ p.chaddr)
  pub same_transaction : r.xid ≡ p.xid
  pub same_relay : r.giaddr ≡ p.giaddr
  pub zeroed : (r.hops ≡ 0) × (r.secs ≡ 0) × (r.sname ≡ replicate 64 0)
  pub same_client :
      (o : DhcpOption)
      → get_option p.options client_id_code ≡ some o
      → get_option r.options client_id_code ≡ some o

pub find_code-code :
    (c : ℕ) (os : List DhcpOption) (o : DhcpOption) → find_code c os ≡ some o → code o ≡ c
unfolding find_code
find_code-code c [] o e = cc
find_code-code c (x ∷ xs) o e = elim (Bool-cases (code x == c)) [
  | inl t ↦
      let same : x ≡ o = some-eq (rw (find_code, t) at e) in rw (← same) ((==_iff (code x) c).0 t)
  | inr f ↦ find_code-code c xs o (rw (find_code, f) at e)
]

pub find_code-All :
    (P : DhcpOption → Type 0) (c : ℕ) (os : List DhcpOption) (o : DhcpOption)
    → All P os
    → find_code c os ≡ some o
    → P o
unfolding find_code
find_code-All P c [] o h e = cc
find_code-All P c (x ∷ xs) o h e = elim (Bool-cases (code x == c)) [
  | inl t ↦ let same : x ≡ o = some-eq (rw (find_code, t) at e) in subst P same h.0
  | inr f ↦ find_code-All P c xs o h.1 (rw (find_code, f) at e)
]

-- An option behind options of other codes is found.
found_here :
    (c : ℕ) (o : DhcpOption) (rest : List DhcpOption) → code o ≡ c → find_code c (o ∷ rest) ≡ some o
unfolding find_code
found_here c o rest h = ground arith

echoed :
    (p : DhcpPacket) (o : DhcpOption) (rest : List DhcpOption)
    → get_option p.options client_id_code ≡ some o
    → find_code client_id_code (to_list (get_option p.options client_id_code) ++ rest) ≡ some o
unfolding get_option
echoed p o rest e =
    rw e (found_here client_id_code o rest (find_code-code client_id_code p.options.options o e))

nak_echoes :
    (p : DhcpPacket) (o : DhcpOption)
    → get_option p.options client_id_code ≡ some o
    → get_option (nak p).options client_id_code ≡ some o
unfolding nak get_option code
nak_echoes p o e =
    rw (← append-nil (to_list (find_code client_id_code p.options.options))) (echoed p o [] e)

-- A NAK answers its request: the header fields that RFC 2131 takes over, no address, the NAK type,
-- and the client identifier of the request.
pub nak-IsReplyTo : (p : DhcpPacket) → IsReplyTo p (nak p)
unfolding nak
nak-IsReplyTo p = record {
  is_reply = refl;
  same_hardware = (refl, refl, refl);
  same_transaction = refl;
  same_relay = refl;
  zeroed = (refl, refl, refl);
  same_client = nak_echoes p;
}

module _ ⦃ipnet : Ipnet⦄ ⦃chrono : Chrono⦄ where
  past_mask :
      (yiaddr : Option ipnet.Ipv4Net) (rest : List DhcpOption)
      → find_code client_id_code (mask_option yiaddr ++ rest) ≡ find_code client_id_code rest
  unfolding find_code code
  past_mask none rest = refl
  past_mask (some ip) rest = refl

  response_echoes :
      (p : DhcpPacket) (lease : Lease) (o : DhcpOption)
      → get_option p.options client_id_code ≡ some o
      → get_option (response p lease).options client_id_code ≡ some o
  unfolding response response_options get_option code
  response_echoes p lease o e =
      past_mask lease.yiaddr _ ∙ echoed p o (lease_options lease.options) e

  -- A response answers its request, whatever the lease.
  pub response-IsReplyTo : (p : DhcpPacket) (lease : Lease) → IsReplyTo p (response p lease)
  unfolding response
  response-IsReplyTo p lease = record {
    is_reply = refl;
    same_hardware = (refl, refl, refl);
    same_transaction = refl;
    same_relay = refl;
    zeroed = (refl, refl, refl);
    same_client = response_echoes p lease;
  }
