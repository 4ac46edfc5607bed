-- ===== src/Protocol/Packet/Checked.antt =====
-- `DhcpPacket::from_network` by its checks, and that what it accepts is well formed.
use rsdhcp.External.{ByteOrder}
use rsdhcp.Prelude.{
  All, All-drop, Bool, Bool-cases, List, [], ap, arith, dec_lt, drop, if◌then◌else◌, inl, inr,
  length, le→ltb, ltb, lt→ltb, not, refl, sym, true, ℕ, ◌<◌, ◌∙◌, ◌∷◌, ◌≡◌, ◌≢◌, ◌≤◌, ◌⊎◌,
}
use rsdhcp.Protocol.Bytes.{IsByte}
use rsdhcp.Protocol.Errors.{>>=-eq-ok, err, incorrect_cookie, insufficient_bytes, ok, ok-injective}
use rsdhcp.Protocol.Options.{DhcpOptions}
use rsdhcp.Protocol.Options.Stream.{IsWire}
use rsdhcp.Protocol.Packet.{DhcpPacket, bytes_eq, cookie_bytes, from_network, read_options, slice}
use rsdhcp.Protocol.Packet.Decode.{IsHeader, head_of}
use rsdhcp.Protocol.Packet.WellFormed.{IsWellFormed}
use rsdhcp.Protocol.Options
use rsdhcp.Protocol.Options.RoundTrip

bytes_eq-true : (xs ys : List ℕ) → bytes_eq xs ys ≡ true → xs ≡ ys
unfolding bytes_eq
bytes_eq-true [] [] e = refl
bytes_eq-true [] (y ∷ ys) e = cc
bytes_eq-true (x ∷ xs) [] e = cc
bytes_eq-true (x ∷ xs) (y ∷ ys) e = ground (arith, bytes_eq-true xs ys)

bytes_eq_refl : (xs : List ℕ) → bytes_eq xs xs ≡ true
unfolding bytes_eq
bytes_eq_refl [] = refl
bytes_eq_refl (x ∷ xs) = ground (arith, bytes_eq_refl xs)

pub with_options :
    (p : DhcpPacket) (opts : DhcpOptions)
    → IsWellFormed p
    → All IsWire opts.options
    → IsWellFormed (record p { options = opts })
with_options p opts w h = record {
  op_code = w.op_code;
  op_byte = w.op_byte;
  htype_code = w.htype_code;
  htype_byte = w.htype_byte;
  hlen_byte = w.hlen_byte;
  hops_byte = w.hops_byte;
  xid_u32 = w.xid_u32;
  secs_u16 = w.secs_u16;
  flags_u16 = w.flags_u16;
  ciaddr_u32 = w.ciaddr_u32;
  yiaddr_u32 = w.yiaddr_u32;
  siaddr_u32 = w.siaddr_u32;
  giaddr_u32 = w.giaddr_u32;
  chaddr_length = w.chaddr_length;
  chaddr_bytes = w.chaddr_bytes;
  sname_length = w.sname_length;
  sname_bytes = w.sname_bytes;
  file_length = w.file_length;
  file_bytes = w.file_bytes;
  cookie_fixed = w.cookie_fixed;
  options_wire = h;
}

module _ ⦃crate : ByteOrder⦄ where
  pub from_network_short :
      (raw : List ℕ) (broadcast : Bool)
      → length raw < 240
      → from_network raw broadcast ≡ err insufficient_bytes
  unfolding from_network
  from_network_short raw broadcast h = rw (lt→ltb (length raw) 240 h)

  -- Past the length check, the answer hangs on the cookie alone, then on the options.
  from_network_long :
      (raw : List ℕ) (broadcast : Bool) (p : DhcpPacket)
      → 240 ≤ length raw
      → IsHeader raw broadcast p
      → from_network raw broadcast ≡ (
          if not (bytes_eq (slice 236 240 raw) cookie_bytes)
          then err incorrect_cookie
          else read_options raw p)
  unfolding from_network
  from_network_long raw broadcast p long h =
      rw (from_network, le→ltb (length raw) 240 long, h.read, h.cookie)

  read_options-IsWellFormed :
      (raw : List ℕ) (p q : DhcpPacket)
      → All IsByte raw
      → IsWellFormed p
      → read_options raw p ≡ ok q
      → IsWellFormed q
  unfolding read_options
  read_options-IsWellFormed raw p q bytes w e = elim (Bool-cases (ltb 240 (length raw))) [
    | inl t ↦
        let (opts, decoded, made) =
          >>=-eq-ok (Options.from_network (drop 240 raw)) _ (rw (read_options, t) at e) in
        rw (← ok-injective made) (
          with_options p opts w (
            RoundTrip.from_network-IsWire (drop 240 raw) opts (All-drop IsByte 240 raw bytes)
              decoded))
    | inr f ↦ rw (← ok-injective (rw (read_options, f) at e)) w
  ]

  -- The two outcomes past the length check.
  pub from_network_checked :
      (raw : List ℕ) (broadcast : Bool)
      → 240 ≤ length raw
      → All IsByte raw
      → ((slice 236 240 raw ≢ cookie_bytes) × (from_network raw broadcast ≡ err incorrect_cookie))
        ⊎ ((slice 236 240 raw ≡ cookie_bytes)
            × ((p : DhcpPacket) × IsWellFormed p
                × (p.options.options ≡ [])
                × (from_network raw broadcast ≡ read_options raw p)))
  from_network_checked raw broadcast long bytes =
      let (p, h) = head_of raw broadcast long bytes in
      let step = from_network_long raw broadcast p long h in
      elim (Bool-cases (bytes_eq (slice 236 240 raw) cookie_bytes)) [
        | inl t ↦
            let same = bytes_eq-true (slice 236 240 raw) cookie_bytes t in
            inr (same, (p, h.formed (h.cookie ∙ same), h.no_options, step ∙ rw t))
        | inr f ↦ inl (
          (λ same. cc (ap (λ s. bytes_eq s cookie_bytes) same, bytes_eq_refl cookie_bytes)),
          step ∙ rw f,
        )
      ]

  -- Every packet that is decoded from bytes is well formed: its fields have their widths, its
  -- cookie is the DHCP cookie, and its options can be carried.
  pub from_network-IsWellFormed :
      (raw : List ℕ) (broadcast : Bool) (p : DhcpPacket)
      → All IsByte raw
      → from_network raw broadcast ≡ ok p
      → IsWellFormed p
  from_network-IsWellFormed raw broadcast p bytes e = elim (dec_lt (length raw) 240) [
    | yes h ↦ cc (from_network_short raw broadcast h)
    | no h ↦ elim (from_network_checked raw broadcast (omega arith) bytes) [
      | inl (wrong, refused) ↦ cc
      | inr (right, (q, w, none_yet, step)) ↦
          read_options-IsWellFormed raw q p bytes w (sym step ∙ e)
    ]
  ]
