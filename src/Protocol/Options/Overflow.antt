-- ===== src/Protocol/Options/Overflow.antt =====
-- `DhcpOptions::to_network_overflow` of rsdhcp/src/protocol/packet.rs: options spread over the
-- option field and the header's `file` and `sname` fields.
pub mod Bounds
pub mod Contents
pub mod Received
use rsdhcp.Prelude.{
  Bool, List, Option, [], if◌then◌else◌, leb, length, ltb, none, some, ℕ, ◌&&◌, ◌++◌, ◌+◌, ◌∷◌,
}
use rsdhcp.Protocol.Option.{DhcpOption, overload}
use rsdhcp.Protocol.Options.{DhcpOptions}
use rsdhcp.Protocol.Value.{is_empty}
use rsdhcp.Protocol.Option.Wire

abbrev pub reserved_bytes : ℕ
reserved_bytes = 4

abbrev pub file_bytes_max : ℕ
file_bytes_max = 128

abbrev pub sname_bytes_max : ℕ
sname_bytes_max = 64

-- The three vectors that the loop fills.
pub record Areas : Type 0 where
  pub bytes : List ℕ
  pub file_bytes : List ℕ
  pub sname_bytes : List ℕ

-- The body of the loop over the options; the last branch logs that the option is left out.
unfoldable pub place : ℕ → Bool → Bool → Areas → DhcpOption → Areas
place max_len use_file use_sname a o =
    let optbytes = Wire.to_network o in
    if leb (length a.bytes + length optbytes + reserved_bytes) max_len
    then record a { bytes = a.bytes ++ optbytes }
    else if use_file && leb (length a.file_bytes + 1 + length optbytes) file_bytes_max
    then record a { file_bytes = a.file_bytes ++ optbytes }
    else if use_sname && leb (length a.sname_bytes + 1 + length optbytes) sname_bytes_max
    then record a { sname_bytes = a.sname_bytes ++ optbytes }
    else a

unfoldable pub place_all : ℕ → Bool → Bool → Areas → List DhcpOption → Areas
unfolding place
place_all max_len use_file use_sname a [] = a
place_all max_len use_file use_sname a (o ∷ os) =
    place_all max_len use_file use_sname (place max_len use_file use_sname a o) os

abbrev pub no_areas : Areas
no_areas = record { bytes = []; file_bytes = []; sname_bytes = [] }

-- A field that was used is ended, and returned.
abbrev pub ended : List ℕ → Option (List ℕ)
ended [] = none
ended (b ∷ bs) = some ((b ∷ bs) ++ 255 ∷ [])

-- `overload_val`: 1 for the file field, 2 for the sname field.
abbrev pub overload_val : List ℕ → List ℕ → ℕ
overload_val file_bytes sname_bytes =
    (if is_empty file_bytes then 0 else 1) + (if is_empty sname_bytes then 0 else 2)

abbrev pub overload_bytes : ℕ → List ℕ
overload_bytes v = if ltb 0 v then Wire.to_network (overload v) else []

-- The triple that the source returns.
pub record Overflowed : Type 0 where
  pub bytes : List ℕ
  pub file_data : Option (List ℕ)
  pub sname_data : Option (List ℕ)

unfoldable pub close_areas : Areas → Overflowed
close_areas a = record {
  bytes = a.bytes ++ (overload_bytes (overload_val a.file_bytes a.sname_bytes) ++ 255 ∷ []);
  file_data = ended a.file_bytes;
  sname_data = ended a.sname_bytes;
}

unfoldable pub to_network_overflow : DhcpOptions → ℕ → Bool → Bool → Overflowed
unfolding close_areas place_all
to_network_overflow opts max_len use_file use_sname =
    close_areas (place_all max_len use_file use_sname no_areas opts.options)
