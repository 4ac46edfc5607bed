-- ===== src/Protocol/Packet/Reply/Owed.antt =====
-- What each kind of reply owes its request, beside what all replies do.
use rsdhcp.Backends.{Lease}
use rsdhcp.External.{Chrono, Ipnet}
use rsdhcp.Prelude.{
  ==_no, ==_yes, List, [], ap, append_assoc, refl, some, some-eq, subst, sym, ◌++◌, ◌∷◌, ◌≡◌, ◌≢◌,
}
use rsdhcp.Protocol.Enums.{
  MessageType, acknowledge, discover, inform, neg_acknowledge, offer, request,
}
use rsdhcp.Protocol.Option.{
  DhcpOption, address_time, client_id_code, code, dhcp_msg_type, dhcp_msg_type_code, dhcp_server_id,
  dhcp_server_id_code, subnet_mask, subnet_mask_code,
}
use rsdhcp.Protocol.Options.{find_code, get_option}
use rsdhcp.Protocol.Packet.{DhcpPacket, first_message_type, message_type}
use rsdhcp.Protocol.Packet.Reply.{
  lease_options, lease_seconds, mask_option, nak, response, response_options, response_type,
  to_list,
}
use rsdhcp.Protocol.Packet.Reply.Laws.{IsReplyTo, nak-IsReplyTo, response-IsReplyTo}

-- The types of message that a server answers.
pub data IsAsked : MessageType → Type 0 where
  asked_discover : IsAsked discover
  asked_request : IsAsked request
  asked_inform : IsAsked inform

-- The type of the response to each of them.
pub data IsAnsweredBy : MessageType → MessageType → Type 0 where
  offered : IsAnsweredBy discover offer
  acknowledged_request : IsAnsweredBy request acknowledge
  acknowledged_inform : IsAnsweredBy inform acknowledge

-- The loop over the variants and the search for the code find the same type of message.
first_message_type-find_code :
    (os : List DhcpOption) (t : MessageType)
    → first_message_type os ≡ some t
    → find_code dhcp_msg_type_code os ≡ some (dhcp_msg_type t)
unfolding first_message_type find_code code
first_message_type-find_code [] t e = cc
first_message_type-find_code (dhcp_msg_type mt ∷ os) t e =
    let same : mt ≡ t = some-eq e in rw (same) refl
first_message_type-find_code (_ ∷ os) t e = first_message_type-find_code os t e

asked-IsAnsweredBy :
    (t : MessageType) → IsAsked t → IsAnsweredBy t (response_type (some (dhcp_msg_type t)))
unfolding response_type
asked-IsAnsweredBy _ asked_discover = offered
asked-IsAnsweredBy _ asked_request = acknowledged_request
asked-IsAnsweredBy _ asked_inform = acknowledged_inform

pub response_type-IsAnsweredBy :
    (p : DhcpPacket) (t : MessageType)
    → message_type p ≡ some t
    → IsAsked t
    → IsAnsweredBy t (response_type (get_option p.options dhcp_msg_type_code))
unfolding message_type get_option
response_type-IsAnsweredBy p t e a =
    subst (λ o. IsAnsweredBy t (response_type o))
      (sym (first_message_type-find_code p.options.options t e)) (asked-IsAnsweredBy t a)

-- A NAK: no address, the NAK's type, and the flags of the client, or the broadcast flag for a relay.
pub record IsNakTo (p r : DhcpPacket) : Type 0 where
  pub is_reply : IsReplyTo p r
  pub no_address : (r.ciaddr ≡ 0) × (r.yiaddr ≡ 0) × (r.siaddr ≡ 0)
  pub type : message_type r ≡ some neg_acknowledge
  pub flags : (p.giaddr ≡ 0 → r.flags ≡ p.flags) × (p.giaddr ≢ 0 → r.flags ≡ 0x8000)

pub nak-IsNakTo : (p : DhcpPacket) → IsNakTo p (nak p)
unfolding nak message_type
nak-IsNakTo p = record {
  is_reply = nak-IsReplyTo p;
  no_address = (refl, refl, refl);
  type = refl;
  flags = ((λ z. rw (==_yes z) refl), (λ n. rw (==_no n) refl));
}

module _ ⦃ipnet : Ipnet⦄ ⦃chrono : Chrono⦄ where
  -- A response for a lease: the flags and the address of the client, the type that answers the request's,
  -- the lease's address with its mask, the server's identifier, and, at the end, the lease's options.
  pub record IsResponseTo (p : DhcpPacket) (lease : Lease) (r : DhcpPacket) : Type 0 where
    pub is_reply : IsReplyTo p r
    pub same_flags : r.flags ≡ p.flags
    pub same_ciaddr : r.ciaddr ≡ p.ciaddr
    pub type :
        (t : MessageType)
        → message_type p ≡ some t
        → IsAsked t
        → (u : MessageType) × IsAnsweredBy t u × (message_type r ≡ some u)
    pub address :
        (net : ipnet.Ipv4Net)
        → lease.yiaddr ≡ some net
        → (r.yiaddr ≡ ipnet.addr net)
          × (get_option r.options subnet_mask_code ≡ some (subnet_mask (ipnet.netmask net)))
    pub server :
        get_option r.options dhcp_server_id_code ≡ some (dhcp_server_id lease.server_identifier)
    pub lease_last :
        (before : List DhcpOption) × (r.options.options ≡ before ++ lease_options lease.options)

  pub response-IsResponseTo :
      (p : DhcpPacket) (lease : Lease) → IsResponseTo p lease (response p lease)
  unfolding response response_options message_type get_option code
  response-IsResponseTo p lease =
      let type = response_type (get_option p.options dhcp_msg_type_code) in
      let time = address_time (lease_seconds (chrono.num_seconds lease.lease_duration)) in
      let client = to_list (get_option p.options client_id_code) in
      record {
        is_reply = response-IsReplyTo p lease;
        same_flags = refl;
        same_ciaddr = refl;
        type = λ t e a. (type, response_type-IsAnsweredBy p t e a, refl);
        address = λ net e. rw (e) ((refl, refl));
        server = refl;
        lease_last = (
          dhcp_msg_type type
              ∷ dhcp_server_id lease.server_identifier
              ∷ time
              ∷ (mask_option lease.yiaddr ++ client),
          ap (λ os. dhcp_msg_type type ∷ dhcp_server_id lease.server_identifier ∷ time ∷ os)
              (sym (append_assoc (mask_option lease.yiaddr) client (lease_options lease.options))),
        );
      }
