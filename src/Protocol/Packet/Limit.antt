-- ===== src/Protocol/Packet/Limit.antt =====
-- Packets written under a client's size limit: their length, and what the client reads.
use rsdhcp.External.{ByteOrder}
use rsdhcp.Prelude.{
  Bool, List, Option, [], arith, drop, get_or, length, length-append, length-drop, max, none, refl,
  some, ℕ, ◌++◌, ◌+◌, ◌==◌, ◌≡◌, ◌≢◌, ◌≤◌,
}
use rsdhcp.Protocol.Errors.{ok}
use rsdhcp.Protocol.Option.{DhcpOption}
use rsdhcp.Protocol.Options.Overflow.Bounds.{to_network_overflow-bounds}
use rsdhcp.Protocol.Options.Overflow.Contents.{flag, overload_option}
use rsdhcp.Protocol.Options.Overflow.Received.{Received, to_network_overflow-Received}
use rsdhcp.Protocol.Packet.{
  DhcpPacket, from_network, max_options_len, overflowed, overwrite, to_network,
}
use rsdhcp.Protocol.Packet.RoundTrip.{from_network-assemble, length-assemble, length-pad_options}
use rsdhcp.Protocol.Packet.WellFormed.{IsWellFormed}
use rsdhcp.Protocol.Options

overwrite-length :
    (old : List ℕ) (written : Option (List ℕ)) (n : ℕ)
    → length old ≡ n
    → ((d : List ℕ) → written ≡ some d → length d ≤ n)
    → length (overwrite old written) ≡ n
overwrite-length old none n h fits = h
overwrite-length old (some d) n h fits =
    omega (arith, length-append d (drop (length d) old), length-drop (length d) old, fits d refl)

module _ (p : DhcpPacket) (m : ℕ) where
  overflowed-file : (d : List ℕ) → (overflowed p m).file_data ≡ some d → length d ≤ 128
  unfolding overflowed
  overflowed-file d e =
      let b =
        to_network_overflow-bounds p.options (max_options_len m) (get_or p.file 0 0 == 0)
          (get_or p.sname 0 0 == 0) d (unfold max_options_len in omega arith) in
      (b.1 e).0

  overflowed-sname : (d : List ℕ) → (overflowed p m).sname_data ≡ some d → length d ≤ 64
  unfolding overflowed
  overflowed-sname d e =
      let b =
        to_network_overflow-bounds p.options (max_options_len m) (get_or p.file 0 0 == 0)
          (get_or p.sname 0 0 == 0) d (unfold max_options_len in omega arith) in
      (b.2 e).0

  overflowed-main : length (overflowed p m).bytes ≤ max_options_len m
  unfolding overflowed
  overflowed-main =
      (to_network_overflow-bounds p.options (max_options_len m) (get_or p.file 0 0 == 0)
        (get_or p.sname 0 0 == 0) [] (unfold max_options_len in omega arith)).0

  file_field-length :
      length p.file ≡ 128 → length (overwrite p.file (overflowed p m).file_data) ≡ 128
  file_field-length h = overwrite-length p.file (overflowed p m).file_data 128 h overflowed-file

  sname_field-length :
      length p.sname ≡ 64 → length (overwrite p.sname (overflowed p m).sname_data) ≡ 64
  sname_field-length h = overwrite-length p.sname (overflowed p m).sname_data 64 h overflowed-sname

  -- A packet for a client that named a size limit has at least 300 bytes and at most as many as
  -- the limit allows, which counts as 576 if it is less: the header's fields keep their widths.
  pub to_network-limit :
      length p.chaddr ≡ 16
      → length p.sname ≡ 64
      → length p.file ≡ 128
      → p.max_client_message_size ≡ some m
      → (300 ≤ length (to_network p)) × (length (to_network p) ≤ max m 576)
  unfolding to_network max_options_len
  to_network-limit hc hs hf limited =
      let r = overflowed p m in
      let sized =
        length-assemble p r.bytes (overwrite p.file r.file_data) (overwrite p.sname r.sname_data) hc
          (file_field-length hf) (sname_field-length hs) in
      rw (to_network, limited)
        (
          omega (arith, sized, length-pad_options r.bytes),
          omega (arith, sized, length-pad_options r.bytes, overflowed-main),
        )

-- What a client reads from such a packet.
pub record Delivered ⦃crate : ByteOrder⦄ (p : DhcpPacket) (m : ℕ) (broadcast : Bool) : Type 0 where
  pub spread : Received p.options.options (overflowed p m)
  pub decoded :
      from_network (to_network p) broadcast
      ≡ ok (record p {
        sname = overwrite p.sname (overflowed p m).sname_data;
        file = overwrite p.file (overflowed p m).file_data;
        options = record {
          options = spread.main ++ overload_option (flag spread.file 1 + flag spread.sname 2);
        };
        max_client_message_size = none;
        received_by_broadcast = broadcast;
      })
  pub file_options :
      (overflowed p m).file_data ≢ none
      → Options.from_network (overwrite p.file (overflowed p m).file_data)
        ≡ ok (record { options = spread.file })
  pub sname_options :
      (overflowed p m).sname_data ≢ none
      → Options.from_network (overwrite p.sname (overflowed p m).sname_data)
        ≡ ok (record { options = spread.sname })

module _ ⦃crate : ByteOrder⦄ where
  area_options :
      (old : List ℕ) (written : Option (List ℕ)) (os : List DhcpOption)
      → ((d rest : List ℕ)
          → written ≡ some d
          → Options.from_network (d ++ rest) ≡ ok (record { options = os }))
      → written ≢ none
      → Options.from_network (overwrite old written) ≡ ok (record { options = os })
  area_options old none os read used = absurd (used refl)
  area_options old (some d) os read used = read d (drop (length d) old) refl

  -- A client that decodes a well-formed packet that was written under its limit reads the header
  -- that was sent, and finds every option in one of the three places or omitted, in order; the
  -- option field names by an overload option the header fields that hold options, and those decode
  -- to their share.
  pub to_network-Delivered :
      (p : DhcpPacket) (m : ℕ) (broadcast : Bool)
      → IsWellFormed p
      → p.max_client_message_size ≡ some m
      → Delivered p m broadcast
  to_network-Delivered p m broadcast w limited =
      let r = overflowed p m in
      let spread : Received p.options.options r =
        unfold overflowed in
        to_network_overflow-Received p.options (max_options_len m) (get_or p.file 0 0 == 0)
          (get_or p.sname 0 0 == 0) w.options_wire in
      record {
        spread = spread;
        decoded =
            unfold to_network in
            rw (to_network, limited)
              (from_network-assemble p r.bytes (overwrite p.file r.file_data)
                (overwrite p.sname r.sname_data) broadcast _ w (file_field-length p m w.file_length)
                (sname_field-length p m w.sname_length) spread.main_read);
        file_options = area_options p.file r.file_data spread.file spread.file_read;
        sname_options = area_options p.sname r.sname_data spread.sname spread.sname_read;
      }
