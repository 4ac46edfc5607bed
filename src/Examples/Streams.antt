-- ===== src/Examples/Streams.antt =====
-- Single options and option streams.
use rsdhcp.Examples.Setting.{clock, cursor, networks}
use rsdhcp.Prelude.{All, List, [], arith, false, length, refl, some, true, ℕ, ◌↔◌, ◌∷◌, ◌≡◌, ◌≤◌}
use rsdhcp.Protocol.Bytes.{u16_from_be_bytes, u16_to_be_bytes, u32_to_be_bytes}
use rsdhcp.Protocol.Errors.{io_error, ok}
use rsdhcp.Protocol.Option.{code, mtu_interface, router}
use rsdhcp.Protocol.Option.Arms.{new}
use rsdhcp.Protocol.Option.Codec.{new-value_bytes, value_of}
use rsdhcp.Protocol.Option.Sound.{Decoded, new-Decoded}
use rsdhcp.Protocol.Option.Wire.{value_bytes}
use rsdhcp.Protocol.Options.{DhcpOptions, from_network}
use rsdhcp.Protocol.Options.Grammar.{Holds, IsReadError, from_network-Holds, from_network-errors}
use rsdhcp.Protocol.Options.Overflow.{to_network_overflow}
use rsdhcp.Protocol.Options.Overflow.Bounds.{to_network_overflow-bounds}
use rsdhcp.Protocol.Options.Stream.{IsWire}
use rsdhcp.Protocol.Value.{ip_list_to_network, u16_from_network, u16_to_network}

two_options : All IsWire (router (0x0a00_0001 ∷ []) ∷ mtu_interface 1500 ∷ [])
unfolding value_bytes ip_list_to_network u32_to_be_bytes u16_to_network u16_to_be_bytes
two_options = (
  record { carried = tt; valid = (omega arith, tt); fits = omega arith },
  (record { carried = tt; valid = omega arith; fits = omega arith }, tt),
)

abbrev padded : List ℕ
padded = 0 ∷ 26 ∷ 2 ∷ 5 ∷ 220 ∷ 0 ∷ 255 ∷ 9 ∷ []

padded_decoded : from_network padded ≡ ok (record { options = mtu_interface 1500 ∷ [] })
unfolding from_network new u16_from_network u16_from_be_bytes
padded_decoded = refl

new-value_bytes_example :
    new (code (router (0x0a00_0001 ∷ []))) (value_of (value_bytes (router (0x0a00_0001 ∷ []))))
    ≡ ok (router (0x0a00_0001 ∷ []))
new-value_bytes_example = new-value_bytes (router (0x0a00_0001 ∷ [])) (omega arith, tt)

new-Decoded_example : Decoded 26 (5 ∷ 220 ∷ []) (mtu_interface 1500)
unfolding new u16_from_network u16_from_be_bytes
new-Decoded_example =
    new-Decoded 26 (5 ∷ 220 ∷ []) (mtu_interface 1500) (omega arith, (omega arith, tt)) refl

from_network-errors_example : IsReadError io_error
unfolding from_network
from_network-errors_example = from_network-errors (53 ∷ []) io_error refl

from_network-Holds_example :
    (from_network padded ≡ ok (record { options = mtu_interface 1500 ∷ [] }))
    ↔ Holds padded (mtu_interface 1500 ∷ [])
from_network-Holds_example =
    from_network-Holds 0 (26 ∷ 2 ∷ 5 ∷ 220 ∷ 0 ∷ 255 ∷ 9 ∷ []) (mtu_interface 1500 ∷ [])

abbrev spread : DhcpOptions
spread = record { options = router (0x0a00_0001 ∷ []) ∷ mtu_interface 1500 ∷ [] }

to_network_overflow-bounds_example :
    (length (to_network_overflow spread 8 true false).bytes ≤ 8)
    × ((to_network_overflow spread 8 true false).file_data ≡ some (26 ∷ 2 ∷ 5 ∷ 220 ∷ 255 ∷ [])
        → (5 ≤ 128) × (true ≡ true))
    × ((to_network_overflow spread 8 true false).sname_data ≡ some (26 ∷ 2 ∷ 5 ∷ 220 ∷ 255 ∷ [])
        → (5 ≤ 64) × (false ≡ true))
to_network_overflow-bounds_example =
    to_network_overflow-bounds spread 8 true false (26 ∷ 2 ∷ 5 ∷ 220 ∷ 255 ∷ []) (omega arith)
