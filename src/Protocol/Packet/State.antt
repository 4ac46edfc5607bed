-- ===== src/Protocol/Packet/State.antt =====
-- The client's state, against the table of RFC 2131 (section 4.3.2).
use rsdhcp.Prelude.{Option, arith, false, inl, inr, none, refl, some, true, ℕ, ◌↔◌, ◌≡◌, ◌≢◌, ◌⊎◌}
use rsdhcp.Protocol.Enums.{
  ClientState, DhcpOperation, MessageType, boot_reply, discover, init, init_reboot, rebinding,
  renewing, request, selecting,
}
use rsdhcp.Protocol.Option.{address_request_code, dhcp_server_id_code}
use rsdhcp.Protocol.Options.{get_option}
use rsdhcp.Protocol.Packet.{
  DhcpPacket, broadcast_by_client, client_state, is_some, message_type, request_state,
  state_of_operation, state_of_type,
}

-- What a request of a client in each state looks like: the server identifier and the requested
-- address as options, the client's address, and how the request came.
abbrev pub Carries : DhcpPacket → ℕ → Type 0
Carries p c = is_some (get_option p.options c) ≡ true

abbrev pub Lacks : DhcpPacket → ℕ → Type 0
Lacks p c = is_some (get_option p.options c) ≡ false

-- Through a relay, or to the broadcast address on the server's own network.
abbrev pub CameByBroadcast : DhcpPacket → Type 0
CameByBroadcast p = (p.giaddr ≢ 0) ⊎ (p.received_by_broadcast ≡ true)

abbrev pub RequestLooks : DhcpPacket → ClientState → Type 0
RequestLooks p init = ⊥
RequestLooks p selecting =
    (p.ciaddr ≡ 0) × Carries p dhcp_server_id_code × Carries p address_request_code
RequestLooks p init_reboot =
    (p.ciaddr ≡ 0) × Lacks p dhcp_server_id_code × Carries p address_request_code
RequestLooks p renewing =
    (p.ciaddr ≢ 0)
    × Lacks p dhcp_server_id_code
    × Lacks p address_request_code
    × (¬ CameByBroadcast p)
RequestLooks p rebinding =
    (p.ciaddr ≢ 0) × Lacks p dhcp_server_id_code × Lacks p address_request_code × CameByBroadcast p

abbrev pub Looks : DhcpPacket → ClientState → Type 0
Looks p s =
    ((message_type p ≡ some discover) × (s ≡ init))
    ⊎ ((message_type p ≡ some request) × RequestLooks p s)

by_broadcast : (p : DhcpPacket) → (broadcast_by_client p ≡ true) ↔ CameByBroadcast p
unfolding broadcast_by_client
by_broadcast p = ground arith

not_by_broadcast :
    (p : DhcpPacket)
    → (broadcast_by_client p ≡ false) ↔ ((p.giaddr ≡ 0) × (p.received_by_broadcast ≡ false))
unfolding broadcast_by_client
not_by_broadcast p = ground arith

request_state_lem :
    (p : DhcpPacket) (s : ClientState) → (request_state p ≡ some s) ↔ RequestLooks p s
unfolding request_state
request_state_lem p init = ground arith
request_state_lem p _ = ground arith

state_of_type_lem :
    (p : DhcpPacket) (t : Option MessageType) (s : ClientState)
    → (state_of_type p t ≡ some s)
      ↔ (((t ≡ some discover) × (s ≡ init)) ⊎ ((t ≡ some request) × RequestLooks p s))
unfolding state_of_type
state_of_type_lem p none s = ground arith
state_of_type_lem p (some request) s = ((λ e. inr (refl, (request_state_lem p s).0 e)), looks)
  where
    looks :
        (((some request ≡ some discover) × (s ≡ init))
          ⊎ ((some request ≡ some request) × RequestLooks p s))
        → request_state p ≡ some s
    looks (inl h) = cc
    looks (inr h) = (request_state_lem p s).1 h.1
state_of_type_lem p (some discover) s = ground arith
state_of_type_lem p (some t) s = ground arith

state_of_operation_lem :
    (p : DhcpPacket) (op : DhcpOperation) (s : ClientState)
    → (state_of_operation p op ≡ some s) ↔ ((op ≢ boot_reply) × Looks p s)
unfolding state_of_operation
state_of_operation_lem p boot_reply s = ((λ e. cc), (λ h. absurd (h.0 refl)))
state_of_operation_lem p _ s = (
  (λ e. ((λ q. cc), (state_of_type_lem p (message_type p) s).0 e)),
  (λ h. (state_of_type_lem p (message_type p) s).1 h.1),
)

-- `client_state` tells a state exactly when the packet is no reply and looks like that state's
-- message in the table: a discover is INIT, and a request is told by its client address, its server
-- identifier, its requested address and whether it came by broadcast or through a relay. So the
-- states exclude one another, and a request that fits no row has none.
pub client_state-Looks :
    (p : DhcpPacket) (s : ClientState)
    → (client_state p ≡ some s) ↔ ((p.op ≢ boot_reply) × Looks p s)
unfolding client_state
client_state-Looks p s = state_of_operation_lem p p.op s
