-- ===== src/Protocol/Packet/RoundTrip.antt =====
-- `DhcpPacket::to_network` and `DhcpPacket::from_network` against each other.
use rsdhcp.External.{ByteOrder}
use rsdhcp.Prelude.{
  Bool, Bool-cases, List, [], append-nil, arith, drop, inl, inr, length, length-append,
  length-replicate, le→ltb, ltb, lt→ltb, max, none, replicate, ℕ, ◌++◌, ◌+◌, ◌-◌, ◌<◌, ◌≡◌,
}
use rsdhcp.Protocol.Errors.{ok}
use rsdhcp.Protocol.Options.{DhcpOptions}
use rsdhcp.Protocol.Packet.{
  DhcpPacket, assemble, cookie_bytes, from_network, pad_options, read_header, read_options,
  to_network,
}
use rsdhcp.Protocol.Packet.Header.{behind_file, read_header-assemble}
use rsdhcp.Protocol.Packet.WellFormed.{IsWellFormed}
use rsdhcp.Protocol.Options
use rsdhcp.Protocol.Options.RoundTrip

pub length-assemble :
    (p : DhcpPacket) (options file sname : List ℕ)
    → length p.chaddr ≡ 16
    → length file ≡ 128
    → length sname ≡ 64
    → length (assemble p options file sname) ≡ 240 + length (pad_options options)
unfolding assemble
length-assemble p options file sname hc hf hs =
    let tail = cookie_bytes ++ pad_options options in
    omega (
      arith,
      length-append p.chaddr (sname ++ (file ++ tail)),
      length-append sname (file ++ tail),
      length-append file tail,
    )

options_slice :
    (p : DhcpPacket) (options file sname : List ℕ)
    → length p.chaddr ≡ 16
    → length file ≡ 128
    → length sname ≡ 64
    → drop 240 (assemble p options file sname) ≡ pad_options options
unfolding assemble
options_slice p options file sname hc hf hs =
    behind_file p.chaddr sname file (cookie_bytes ++ pad_options options) hc hs hf 4

-- Padding puts zeros behind the options, up to 60 bytes.
pub pad_options-append :
    (options : List ℕ) → (zeros : List ℕ) × (pad_options options ≡ options ++ zeros)
pad_options-append options = elim (Bool-cases (ltb (length options) 60)) [
  | inl t ↦ (replicate (60 - length options) 0, rw t)
  | inr f ↦ ([], rw (f, append-nil))
]

pub length-pad_options : (options : List ℕ) → length (pad_options options) ≡ max (length options) 60
length-pad_options options =
    let zeros = 60 - length options in
    ground (arith, length-append options (replicate zeros 0), length-replicate {A = ℕ} zeros 0)

module _ ⦃crate : ByteOrder⦄ where
  from_network_of_header :
      (raw : List ℕ) (broadcast : Bool) (packet : DhcpPacket) (options : DhcpOptions)
      → 240 < length raw
      → read_header raw broadcast ≡ ok packet
      → packet.cookie ≡ cookie_bytes
      → Options.from_network (drop 240 raw) ≡ ok options
      → from_network raw broadcast ≡ ok (record packet { options = options })
  unfolding from_network
  from_network_of_header raw broadcast packet options long header cookie decoded = rw (
    from_network,
    le→ltb (length raw) 240 (omega arith),
    header,
    cookie,
    read_options,
    lt→ltb 240 (length raw) long,
    decoded,
  )

  -- Decoding an assembled packet gives its header, with whatever its option bytes decode to.
  pub from_network-assemble :
      (p : DhcpPacket) (options file sname : List ℕ) (broadcast : Bool) (opts : DhcpOptions)
      → IsWellFormed p
      → length file ≡ 128
      → length sname ≡ 64
      → ((rest : List ℕ) → Options.from_network (options ++ rest) ≡ ok opts)
      → from_network (assemble p options file sname) broadcast
        ≡ ok (record p {
          sname = sname;
          file = file;
          options = opts;
          max_client_message_size = none;
          received_by_broadcast = broadcast;
        })
  from_network-assemble p options file sname broadcast opts w hf hs decoded =
      let (zeros, padded) = pad_options-append options in
      from_network_of_header (assemble p options file sname) broadcast _ opts
        (omega (
          arith,
          length-assemble p options file sname w.chaddr_length hf hs,
          length-pad_options options,
        ))
        (read_header-assemble p options file sname broadcast w hf hs) w.cookie_fixed
        (rw (options_slice p options file sname w.chaddr_length hf hs, padded) (decoded zeros))

  -- A well-formed packet with no size limit, written and read back, is the same packet, but for
  -- the flag of how it arrived, which the reader sets.
  pub from_network-to_network :
      (p : DhcpPacket) (broadcast : Bool)
      → IsWellFormed p
      → p.max_client_message_size ≡ none
      → from_network (to_network p) broadcast ≡ ok (record p { received_by_broadcast = broadcast })
  unfolding to_network
  from_network-to_network p broadcast w unlimited =
      rw (to_network, unlimited)
        (from_network-assemble p (Options.to_network p.options) p.file p.sname broadcast p.options w
          w.file_length w.sname_length
          (λ rest. RoundTrip.from_network-to_network-append p.options rest w.options_wire))
