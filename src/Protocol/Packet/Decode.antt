-- ===== src/Protocol/Packet/Decode.antt =====
-- `DhcpPacket::from_network` on any bytes: what it accepts, and what it makes of them.
use rsdhcp.Prelude.{
  All, All-drop, All-take, Bool, List, [], ap, arith, drop, get_or, length, length-drop,
  length-take, none, refl, suc, zero, ℕ, ◌+◌, ◌-◌, ◌∙◌, ◌∷◌, ◌≡◌, ◌≤◌,
}
use rsdhcp.Protocol.Bytes.{
  IsByte, IsU16, IsU32, u16_from_be_bytes, u16_from_be_bytes-lt, u32_from_be_bytes,
  u32_from_be_bytes-lt,
}
use rsdhcp.Protocol.Enums.{hardware_code, hardware_from, operation_code, operation_from}
use rsdhcp.Protocol.Errors.{ok}
use rsdhcp.Protocol.Packet.{DhcpPacket, cookie_bytes, read_header, slice, to_array, to_u16, to_u32}
use rsdhcp.Protocol.Packet.Header.{to_array-eq}
use rsdhcp.Protocol.Packet.WellFormed.{IsWellFormed}

length-slice : (a b : ℕ) (raw : List ℕ) → b ≤ length raw → length (slice a b raw) ≡ b - a
length-slice a b raw h = omega (arith, length-take (b - a) (drop a raw), length-drop a raw)

slice-IsByte : (a b : ℕ) (raw : List ℕ) → All IsByte raw → All IsByte (slice a b raw)
slice-IsByte a b raw h = All-take IsByte (b - a) (drop a raw) (All-drop IsByte a raw h)

to_u32-ok : (bs : List ℕ) → length bs ≡ 4 → All IsByte bs → (n : ℕ) × (to_u32 bs ≡ ok n) × IsU32 n
unfolding to_u32
to_u32-ok (a ∷ b ∷ c ∷ d ∷ []) h k =
    (u32_from_be_bytes a b c d, refl, u32_from_be_bytes-lt a b c d k.0 k.1.0 k.1.1.0 k.1.1.1.0)
to_u32-ok _ h k = absurd (omega arith)

to_u16-ok : (bs : List ℕ) → length bs ≡ 2 → All IsByte bs → (n : ℕ) × (to_u16 bs ≡ ok n) × IsU16 n
unfolding to_u16
to_u16-ok (a ∷ b ∷ []) h k = (u16_from_be_bytes a b, refl, u16_from_be_bytes-lt a b k.0 k.1.0)
to_u16-ok _ h k = absurd (omega arith)

pub get_or-IsByte : (raw : List ℕ) (i : ℕ) → All IsByte raw → IsByte (get_or raw i 0)
get_or-IsByte [] i h = omega arith
get_or-IsByte (b ∷ bs) zero h = h.0
get_or-IsByte (b ∷ bs) (suc i) h = get_or-IsByte bs i h.1

-- A byte names an operation and a hardware type that name the byte.
pub operation_code-from : (b : ℕ) → operation_code (operation_from b) ≡ b
unfolding operation_code operation_from
operation_code-from b = ground arith

pub hardware_code-from : (b : ℕ) → hardware_code (hardware_from b) ≡ b
unfolding hardware_code hardware_from
hardware_code-from b = ground arith

-- The header that 240 bytes hold.
pub record IsHeader (raw : List ℕ) (broadcast : Bool) (p : DhcpPacket) : Type 0 where
  pub read : read_header raw broadcast ≡ ok p
  pub cookie : p.cookie ≡ slice 236 240 raw
  pub no_options : p.options.options ≡ []
  pub formed : p.cookie ≡ cookie_bytes → IsWellFormed p

module _ (raw : List ℕ) (broadcast : Bool) (long : 240 ≤ length raw) (bytes : All IsByte raw) where
  word_at : (a : ℕ) → a + 4 ≤ 240 → (n : ℕ) × (to_u32 (slice a (a + 4) raw) ≡ ok n) × IsU32 n
  word_at a h =
      to_u32-ok (slice a (a + 4) raw) (length-slice a (a + 4) raw (omega arith) ∙ omega arith)
        (slice-IsByte a (a + 4) raw bytes)

  short_at : (a : ℕ) → a + 2 ≤ 240 → (n : ℕ) × (to_u16 (slice a (a + 2) raw) ≡ ok n) × IsU16 n
  short_at a h =
      to_u16-ok (slice a (a + 2) raw) (length-slice a (a + 2) raw (omega arith) ∙ omega arith)
        (slice-IsByte a (a + 2) raw bytes)

  array_at : (a b : ℕ) → b ≤ 240 → to_array (b - a) (slice a b raw) ≡ ok (slice a b raw)
  array_at a b h = to_array-eq (b - a) (slice a b raw) (length-slice a b raw (omega arith))

  pub head_of : (p : DhcpPacket) × IsHeader raw broadcast p
  unfolding read_header
  head_of =
      let (xid, e1, h1) = word_at 4 (omega arith) in
      let (secs, e2, h2) = short_at 8 (omega arith) in
      let (flags, e3, h3) = short_at 10 (omega arith) in
      let (ciaddr, e4, h4) = word_at 12 (omega arith) in
      let (yiaddr, e5, h5) = word_at 16 (omega arith) in
      let (siaddr, e6, h6) = word_at 20 (omega arith) in
      let (giaddr, e7, h7) = word_at 24 (omega arith) in
      (
        record {
          op = operation_from (get_or raw 0 0);
          htype = hardware_from (get_or raw 1 0);
          hlen = get_or raw 2 0;
          hops = get_or raw 3 0;
          xid = xid;
          secs = secs;
          flags = flags;
          ciaddr = ciaddr;
          yiaddr = yiaddr;
          siaddr = siaddr;
          giaddr = giaddr;
          chaddr = slice 28 44 raw;
          sname = slice 44 108 raw;
          file = slice 108 236 raw;
          cookie = slice 236 240 raw;
          options = record { options = [] };
          max_client_message_size = none;
          received_by_broadcast = broadcast;
        },
        record {
          read = rw (
            read_header,
            e1,
            e2,
            e3,
            e4,
            e5,
            e6,
            e7,
            array_at 28 44 (omega arith),
            array_at 44 108 (omega arith),
            array_at 108 236 (omega arith),
            array_at 236 240 (omega arith),
          );
          cookie = refl;
          no_options = refl;
          formed = λ fixed. record {
            op_code = ap operation_from (operation_code-from (get_or raw 0 0));
            op_byte = rw (operation_code-from (get_or raw 0 0)) (get_or-IsByte raw 0 bytes);
            htype_code = ap hardware_from (hardware_code-from (get_or raw 1 0));
            htype_byte = rw (hardware_code-from (get_or raw 1 0)) (get_or-IsByte raw 1 bytes);
            hlen_byte = get_or-IsByte raw 2 bytes;
            hops_byte = get_or-IsByte raw 3 bytes;
            xid_u32 = h1;
            secs_u16 = h2;
            flags_u16 = h3;
            ciaddr_u32 = h4;
            yiaddr_u32 = h5;
            siaddr_u32 = h6;
            giaddr_u32 = h7;
            chaddr_length = length-slice 28 44 raw (omega arith);
            chaddr_bytes = slice-IsByte 28 44 raw bytes;
            sname_length = length-slice 44 108 raw (omega arith);
            sname_bytes = slice-IsByte 44 108 raw bytes;
            file_length = length-slice 108 236 raw (omega arith);
            file_bytes = slice-IsByte 108 236 raw bytes;
            cookie_fixed = fixed;
            options_wire = tt;
          };
        },
      )
