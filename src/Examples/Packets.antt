-- ===== src/Examples/Packets.antt =====
-- Packets that are sent and received.
use rsdhcp.Examples.Setting.{
  all_bytes-All, clock, cursor, discover_bytes, discover_packet, from_client_bytes, lease_at,
  networks, selecting_packet,
}
use rsdhcp.Prelude.{
  List, [], arith, false, length, max, refl, some, some-eq, subst, true, ℕ, ◌<◌, ◌↔◌, ◌∷◌, ◌≡◌, ◌≢◌,
  ◌≤◌, ◌⊎◌,
}
use rsdhcp.Protocol.Bytes.{IsU32, u16_from_be_bytes, u32_from_be_bytes, u32_to_be_bytes}
use rsdhcp.Protocol.Enums.{
  boot_reply, discover, hardware_from, message_from, operation_from, selecting,
}
use rsdhcp.Protocol.Errors.{err, incorrect_cookie, insufficient_bytes, malformed_packet, ok}
use rsdhcp.Protocol.Option.{code}
use rsdhcp.Protocol.Option.Arms.{new}
use rsdhcp.Protocol.Option.Wire.{value_bytes}
use rsdhcp.Protocol.Options.{get_option}
use rsdhcp.Protocol.Options.Grammar.{Breaks}
use rsdhcp.Protocol.Packet.{
  DhcpPacket, client_state, cookie_bytes, from_network, message_type, slice, to_array, to_network,
}
use rsdhcp.Protocol.Packet.Accepts.{HasOptionField, from_network-error, from_network_accepts}
use rsdhcp.Protocol.Packet.Checked.{from_network-IsWellFormed}
use rsdhcp.Protocol.Packet.Limit.{Delivered, to_network-Delivered, to_network-limit}
use rsdhcp.Protocol.Packet.Reply.{response, response_type}
use rsdhcp.Protocol.Packet.Reply.Owed.{asked_discover}
use rsdhcp.Protocol.Packet.Reply.Sendable.{IsGrant, response-IsWellFormed}
use rsdhcp.Protocol.Packet.RoundTrip.{from_network-to_network}
use rsdhcp.Protocol.Packet.State.{Looks, client_state-Looks}
use rsdhcp.Protocol.Packet.WellFormed.{IsWellFormed}
use rsdhcp.Protocol.Value.{
  bytes_from_network, ip_list_to_network, message_type_from_network, u16_from_network,
}
use rsdhcp.Server.{determine_response_dest}
use rsdhcp.Server.Destination.{IsDestination, at, determine_response_dest-IsDestination}
use rsdhcp.Protocol.Options as Options

discover_decoded : from_network discover_bytes true ≡ ok discover_packet
unfolding from_network to_array Options.from_network operation_from hardware_from u32_from_be_bytes
    u16_from_be_bytes new bytes_from_network u16_from_network message_type_from_network message_from
discover_decoded = refl

well_formed : IsWellFormed discover_packet
well_formed =
    from_network-IsWellFormed discover_bytes true discover_packet
      (all_bytes-All discover_bytes refl) discover_decoded

grant : IsGrant (lease_at 0x0a00_0002 0)
unfolding value_bytes ip_list_to_network u32_to_be_bytes
grant = record {
  server_u32 = omega arith;
  address_u32 = λ ip e.
      subst (λ net. IsU32 (networks.addr net) × IsU32 (networks.netmask net)) (some-eq e)
        ((omega arith, omega arith));
  siaddr_u32 = λ ip e. cc;
  file_field = λ f e. cc;
  options_wire = (record { carried = tt; valid = (omega arith, tt); fits = omega arith }, tt);
}

abbrev offer_packet : DhcpPacket
offer_packet = response discover_packet (lease_at 0x0a00_0002 0)

offer-IsWellFormed : IsWellFormed offer_packet
unfolding response_type get_option code message_type
offer-IsWellFormed =
    response-IsWellFormed discover_packet discover (lease_at 0x0a00_0002 0) well_formed grant refl
      asked_discover

from_network-to_network_example :
    from_network (to_network discover_packet) false
    ≡ ok (record discover_packet { received_by_broadcast = false })
from_network-to_network_example = from_network-to_network discover_packet false well_formed refl

from_network-IsWellFormed_example : IsWellFormed discover_packet
from_network-IsWellFormed_example =
    from_network-IsWellFormed discover_bytes true discover_packet
      (all_bytes-All discover_bytes refl) discover_decoded

to_network-Delivered_example : Delivered offer_packet 576 true
unfolding response get_option code
to_network-Delivered_example = to_network-Delivered offer_packet 576 true offer-IsWellFormed refl

to_network-limit_example :
    (300 ≤ length (to_network offer_packet)) × (length (to_network offer_packet) ≤ max 576 576)
unfolding response get_option code
to_network-limit_example = to_network-limit offer_packet 576 refl refl refl refl

from_network_accepts_example : ((p : DhcpPacket) × (from_network discover_bytes true ≡ ok p)) ↔ (
    (240 ≤ length discover_bytes)
    × (slice 236 240 discover_bytes ≡ cookie_bytes)
    × HasOptionField discover_bytes)
from_network_accepts_example =
    from_network_accepts discover_bytes true (all_bytes-All discover_bytes refl)

-- The message type has two bytes by its length, and only one is there.
abbrev cut_bytes : List ℕ
cut_bytes = from_client_bytes (53 ∷ 2 ∷ 1 ∷ [])

cut_refused : from_network cut_bytes true ≡ err malformed_packet
unfolding from_network to_array Options.from_network operation_from hardware_from u32_from_be_bytes
    u16_from_be_bytes
cut_refused = refl

from_network-error_example :
    ((malformed_packet ≡ insufficient_bytes) × (length cut_bytes < 240))
    ⊎ (((malformed_packet ≡ incorrect_cookie) × (slice 236 240 cut_bytes ≢ cookie_bytes))
        ⊎ (Breaks (53 ∷ 2 ∷ 1 ∷ []) malformed_packet × (slice 236 240 cut_bytes ≡ cookie_bytes)))
from_network-error_example =
    from_network-error cut_bytes true malformed_packet (all_bytes-All cut_bytes refl) cut_refused

client_state-Looks_example : (client_state (selecting_packet 0x0a00_0002) ≡ some selecting) ↔ (
    ((selecting_packet 0x0a00_0002).op ≢ boot_reply)
    × Looks (selecting_packet 0x0a00_0002) selecting)
client_state-Looks_example = client_state-Looks (selecting_packet 0x0a00_0002) selecting

determine_response_dest-IsDestination_example :
    IsDestination discover_packet offer_packet (ok (at 0xffff_ffff 68))
    ↔ (determine_response_dest discover_packet offer_packet ≡ ok (at 0xffff_ffff 68))
determine_response_dest-IsDestination_example =
    determine_response_dest-IsDestination discover_packet offer_packet (ok (at 0xffff_ffff 68))

response-IsWellFormed_example : IsWellFormed offer_packet
unfolding response_type get_option code message_type
response-IsWellFormed_example =
    response-IsWellFormed discover_packet discover (lease_at 0x0a00_0002 0) well_formed grant refl
      asked_discover
