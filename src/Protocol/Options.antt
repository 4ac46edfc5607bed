-- ===== src/Protocol/Options.antt =====
-- `DhcpOptions` of rsdhcp/src/protocol/packet.rs: a list of options, and its two wire forms.
pub mod Rounds
pub mod Grammar
pub mod Stream
pub mod RoundTrip
pub mod Overflow
use rsdhcp.External.{ByteOrder}
use rsdhcp.Prelude.{
  List, Option, [], drop, if◌then◌else◌, length, ltb, none, some, suc, take, zero, ℕ, ◌++◌, ◌==◌,
  ◌∷◌,
}
use rsdhcp.Protocol.Errors.{Result, err, io_error, malformed_packet, ok, out_of_fuel}
use rsdhcp.Protocol.Option.{DhcpOption, code}
use rsdhcp.Protocol.Option.Arms.{new}
use rsdhcp.Protocol.Value.{is_empty}
use rsdhcp.Protocol.Option.Wire

pub record DhcpOptions : Type 0 where
  pub options : List DhcpOption

-- `DhcpOptions::new`
unfoldable pub from_list : Option (List DhcpOption) → DhcpOptions
from_list (some o) = record { options = o }
from_list none = record { options = [] }

-- What a round of the `loop` of `from_network` does: leave it with a result, or go on with what
-- the cursor has not read and the options so far.
pub data Round : Type 0 where
  leave : Result DhcpOptions → Round
  again : List ℕ → List DhcpOption → Round

-- An option that cannot be decoded is logged and left out.
unfoldable pub push_decoded : Result DhcpOption → List DhcpOption → List DhcpOption
push_decoded (ok o) options = options ++ o ∷ []
push_decoded (err e) options = options

module _ ⦃crate : ByteOrder⦄ where
  -- After the code: the length, and as many bytes of data.
  unfoldable pub read_value : ℕ → List ℕ → List DhcpOption → Round
  unfolding push_decoded
  read_value c cursor options = elim (crate.read_u8 cursor) [
    | none ↦ leave (err io_error)
    | some (len, rest) ↦
        if ltb (length rest) len
        then leave (err malformed_packet)
        else again (drop len rest) (push_decoded (new c (take len rest)) options)
  ]

  unfoldable pub read_round : List ℕ → List DhcpOption → Round
  unfolding read_value
  read_round cursor options = elim (crate.read_u8 cursor) [
    | none ↦ leave (err io_error)
    | some (c, rest) ↦
        if c == 255
        then leave (ok (record { options = options }))
        else if c == 0
        then again rest options
        else read_value c rest options
  ]

  -- The loop, on fuel: each round but the last reads a byte at least.
  unfoldable pub read_loop : ℕ → List ℕ → List DhcpOption → Result DhcpOptions
  read_loop zero cursor options = err out_of_fuel
  read_loop (suc fuel) cursor options = elim (read_round cursor options) [
    | leave result ↦ result
    | again cursor' options' ↦ read_loop fuel cursor' options'
  ]

  unfoldable pub from_network : List ℕ → Result DhcpOptions
  unfolding from_list read_loop read_round
  from_network raw =
      if is_empty raw then ok (from_list none) else read_loop (suc (length raw)) raw []

-- The `for` loop of `to_network`, which appends the wire form of each option.
unfoldable pub option_bytes : List DhcpOption → List ℕ
option_bytes [] = []
option_bytes (o ∷ os) = Wire.to_network o ++ option_bytes os

unfoldable pub to_network : DhcpOptions → List ℕ
unfolding option_bytes
to_network opts = option_bytes opts.options ++ 255 ∷ []

-- `iter().find(..)`: the first option of the code.
unfoldable pub find_code : ℕ → List DhcpOption → Option DhcpOption
find_code c [] = none
find_code c (o ∷ os) = if code o == c then some o else find_code c os

unfoldable pub get_option : DhcpOptions → ℕ → Option DhcpOption
unfolding find_code
get_option opts c = find_code c opts.options
