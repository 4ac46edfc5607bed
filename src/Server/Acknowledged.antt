-- ===== src/Server/Acknowledged.antt =====
-- The server with the memory store answers with leases only.
use rsdhcp.Backends.{BackendResult, Lease, granted, lease_mismatch_client_ip, refused}
use rsdhcp.Backends.Memory.{
  chosen_address, handle_discover, handle_inform, handle_request_init_reboot,
  handle_request_rebinding, handle_request_renewing, handle_request_selecting, lease_mask,
  masked_reboot, matching_lease, memory_store, offer_address, reboot_lease, requested_address,
  requested_params,
}
use rsdhcp.Backends.Memory.Database.{
  Memory, get_exprired_lease_ip_addr, get_lease_for_ip, get_unused_ip_addr,
}
use rsdhcp.Backends.Memory.Params.{process_params}
use rsdhcp.External.{ByteOrder, Chrono, Ipnet}
use rsdhcp.Prelude.{
  Bool-cases, List, Option, Option-cases, ap, if◌then◌else◌, inl, inr, none, not, refl, some, subst,
  ℕ, ◌==◌, ◌∙◌, ◌≡◌,
}
use rsdhcp.Protocol.Enums.{
  ClientState, MessageType, discover, init, init_reboot, rebinding, renewing, request, selecting,
}
use rsdhcp.Protocol.Errors.{ok}
use rsdhcp.Protocol.Option.{address_request_code, parameter_list_code}
use rsdhcp.Protocol.Options.{get_option}
use rsdhcp.Protocol.Packet.{
  DhcpPacket, client_state, from_network, is_unspecified, message_type, to_network,
}
use rsdhcp.Protocol.Packet.Reply.{or_else, response}
use rsdhcp.Protocol.Value.{Ipv4Addr}
use rsdhcp.Server.{Datagram, find_lease, handle_request, process_packet_data, sent_to_broadcast}
use rsdhcp.Server.Answers.{Answers, by_nak, by_response, process_packet_data-IsSent}

module _ ⦃crate : ByteOrder⦄ ⦃ipnet : Ipnet⦄ ⦃chrono : Chrono⦄ where
  -- The result is not the one that a NAK answers.
  abbrev pub NoMismatch : BackendResult Lease → Type 0
  NoMismatch (refused lease_mismatch_client_ip) = ⊥
  NoMismatch _ = Unit {0}

  offer_address-NoMismatch :
      (now : chrono.DateTime) (p : DhcpPacket) (m : Memory) (ip : Ipv4Addr)
      → NoMismatch (offer_address now p m ip).0
  unfolding offer_address
  offer_address-NoMismatch now p m ip = elim (Option-cases (ipnet.with_netmask ip m.netmask_addr)) [
    | inl panic ↦ rw (offer_address, panic) tt
    | inr (net, l) ↦
        elim (Option-cases
          (process_params m (requested_params (get_option p.options parameter_list_code)))) [
            | inl panic ↦ rw (offer_address, l, panic) tt
            | inr (params, k) ↦ rw (offer_address, l, k) tt
          ]
  ]

  handle_discover-NoMismatch :
      (now : chrono.DateTime) (ip : Ipv4Addr) (p : DhcpPacket) (m : Memory)
      → NoMismatch (handle_discover now ip p m).0
  unfolding handle_discover
  handle_discover-NoMismatch now ip p m =
      elim (Option-cases
        (chosen_address (get_unused_ip_addr m) (get_exprired_lease_ip_addr now m))) [
          | inl e ↦ rw (handle_discover, e) tt
          | inr (a, e) ↦ rw (handle_discover, e) (offer_address-NoMismatch now p m a)
        ]

  matching_lease-NoMismatch : (xid : ℕ) (o : Option Lease) → NoMismatch (matching_lease xid o)
  matching_lease-NoMismatch xid none = tt
  matching_lease-NoMismatch xid (some lease) = elim (Bool-cases (lease.xid == xid)) [
    | inl t ↦ rw (t) tt
    | inr f ↦ rw (f) tt
  ]

  handle_request_selecting-NoMismatch :
      (now : chrono.DateTime) (ip : Ipv4Addr) (p : DhcpPacket) (m : Memory)
      → NoMismatch (handle_request_selecting now ip p m).0
  unfolding handle_request_selecting
  handle_request_selecting-NoMismatch now ip p m =
      elim (Option-cases (requested_address (get_option p.options address_request_code))) [
        | inl e ↦ rw (handle_request_selecting, e) tt
        | inr (a, e) ↦
            rw (handle_request_selecting, e)
              (matching_lease-NoMismatch p.xid (get_lease_for_ip a m))
      ]

  handle_request_renewing-NoMismatch :
      (now : chrono.DateTime) (recv_ip : Ipv4Addr) (p : DhcpPacket) (m : Memory)
      → NoMismatch (handle_request_renewing now recv_ip p m).0
  unfolding handle_request_renewing
  handle_request_renewing-NoMismatch now recv_ip p m =
      let ip = or_else (requested_address (get_option p.options address_request_code)) p.ciaddr in
      elim (Bool-cases (is_unspecified ip)) [
        | inl t ↦ rw (t) tt
        | inr f ↦ rw (f) (elim (Option-cases (get_lease_for_ip ip m)) [
          | inl e ↦ rw (e) tt
          | inr (lease, e) ↦ rw (e) tt
        ])
      ]

  masked_reboot-NoMismatch :
      (now : chrono.DateTime) (origin ip : Ipv4Addr) (lease : Lease) (m : Memory)
      → NoMismatch (masked_reboot now origin ip lease m).0
  unfolding masked_reboot reboot_lease
  masked_reboot-NoMismatch now origin ip lease m = elim (Option-cases (lease_mask lease.options)) [
    | inl e ↦ rw (masked_reboot, e) tt
    | inr (mask, e) ↦ elim (Bool-cases (is_unspecified mask)) [
      | inl t ↦ rw (masked_reboot, e, t) tt
      | inr f ↦ rw (masked_reboot, e, f) tt
    ]
  ]

  handle_request_init_reboot-NoMismatch :
      (now : chrono.DateTime) (recv_ip : Ipv4Addr) (p : DhcpPacket) (m : Memory)
      → NoMismatch (handle_request_init_reboot now recv_ip p m).0
  unfolding handle_request_init_reboot
  handle_request_init_reboot-NoMismatch now recv_ip p m =
      let ip = or_else (requested_address (get_option p.options address_request_code)) 0 in
      elim (Bool-cases (is_unspecified ip)) [
        | inl t ↦ rw (t) tt
        | inr f ↦ rw (f) (elim (Option-cases (get_lease_for_ip ip m)) [
          | inl e ↦ rw (e) tt
          | inr (lease, e) ↦ rw (e) (
              masked_reboot-NoMismatch now
                (if not (is_unspecified p.giaddr) then p.giaddr else recv_ip) ip lease m)
        ])
      ]

  handle_request-NoMismatch :
      (now : chrono.DateTime) (ip : Ipv4Addr) (p : DhcpPacket) (state : Option ClientState)
      (m : Memory)
      → NoMismatch (handle_request memory_store now ip p state m).0
  unfolding handle_request handle_request_rebinding
  handle_request-NoMismatch now ip p (some selecting) m =
      handle_request_selecting-NoMismatch now ip p m
  handle_request-NoMismatch now ip p (some init_reboot) m =
      handle_request_init_reboot-NoMismatch now ip p m
  handle_request-NoMismatch now ip p (some renewing) m =
      handle_request_renewing-NoMismatch now ip p m
  handle_request-NoMismatch now ip p (some rebinding) m =
      handle_request_renewing-NoMismatch now ip p m
  handle_request-NoMismatch now ip p (some init) m = tt
  handle_request-NoMismatch now ip p none m = tt

  find_lease-NoMismatch :
      (now : chrono.DateTime) (ip : Ipv4Addr) (p : DhcpPacket) (t : MessageType) (m : Memory)
      → NoMismatch (find_lease memory_store now ip p t m).0
  unfolding find_lease handle_inform
  find_lease-NoMismatch now ip p discover m = handle_discover-NoMismatch now ip p m
  find_lease-NoMismatch now ip p request m = handle_request-NoMismatch now ip p (client_state p) m
  find_lease-NoMismatch now ip p _ m = tt

  answered_by_lease :
      (recv_ip : Ipv4Addr) (p : DhcpPacket) (result : BackendResult Lease) (r : DhcpPacket)
      → NoMismatch result
      → Answers recv_ip p result r
      → (lease : Lease) × (result ≡ granted lease)
        × (r ≡ response p (record lease { server_identifier = recv_ip }))
  answered_by_lease recv_ip p _ _ h (by_response lease) = (lease, refl, refl)
  answered_by_lease recv_ip p _ _ h by_nak = absurd h

  -- The server with the memory store sends no NAK: what it sends is the response to the decoded
  -- request for the very lease that the store granted for it, with this server's identifier, and the
  -- state is the one that the grant left.
  pub process_packet_data-response :
      (now : chrono.DateTime) (recv_ip : Ipv4Addr) (destination : Option Ipv4Addr) (bytes : List ℕ)
      (m m' : Memory) (d : Datagram)
      → process_packet_data memory_store now recv_ip destination bytes m ≡ (some d, m')
      → (p : DhcpPacket) × (t : MessageType) × (lease : Lease) × (from_network bytes
            (sent_to_broadcast destination)
          ≡ ok p)
        × (message_type p ≡ some t)
        × (find_lease memory_store now
              (if not (is_unspecified p.giaddr) then p.giaddr else recv_ip)
              p
              t
              m
            ≡ (granted lease, m'))
        × (d.payload ≡ to_network (response p (record lease { server_identifier = recv_ip })))
  process_packet_data-response now recv_ip destination bytes m m' d e =
      let sent = process_packet_data-IsSent memory_store now recv_ip destination bytes m d m' e in
      let p = sent.request_packet in
      let ip = if not (is_unspecified p.giaddr) then p.giaddr else recv_ip in
      let clean : NoMismatch sent.result =
        subst (λ x. NoMismatch x.0) sent.stored (find_lease-NoMismatch now ip p sent.type m) in
      let (lease, is_granted, same) =
        answered_by_lease recv_ip p sent.result sent.reply clean sent.answers in
      (
        p,
        sent.type,
        lease,
        sent.decoded,
        sent.typed,
        sent.stored ∙ ap (λ r. (r, m')) is_granted,
        sent.payload ∙ ap to_network same,
      )
