-- ===== src/Protocol/Packet/Header.antt =====
-- The fixed header: what `assemble` writes is what the slices of `from_network` find.
use rsdhcp.Prelude.{
  Bool, List, [], arith, drop, drop-append, drop_past, length, none, refl, take, take-append, ℕ,
  ◌++◌, ◌+◌, ◌≡◌,
}
use rsdhcp.Protocol.Bytes.{u16_bytes, u32_bytes}
use rsdhcp.Protocol.Errors.{ok}
use rsdhcp.Protocol.Packet.{DhcpPacket, assemble, cookie_bytes, pad_options, read_header, to_array}
use rsdhcp.Protocol.Packet.WellFormed.{IsWellFormed}

pub to_array-eq : (n : ℕ) (bytes : List ℕ) → length bytes ≡ n → to_array n bytes ≡ ok bytes
unfolding to_array
to_array-eq n bytes h = ground arith

-- The arrays behind the 28 bytes of numbers.
module _ (chaddr sname file rest : List ℕ) (hc : length chaddr ≡ 16) (hs : length sname ≡ 64)
    (hf : length file ≡ 128) where
  abbrev arrays : List ℕ
  arrays = chaddr ++ (sname ++ (file ++ rest))

  chaddr_slice : to_array 16 (take 16 arrays) ≡ ok chaddr
  chaddr_slice = rw (take-append 16 chaddr (sname ++ (file ++ rest)) hc) (to_array-eq 16 chaddr hc)

  sname_slice : to_array 64 (take 64 (drop 16 arrays)) ≡ ok sname
  sname_slice =
      rw
        (drop-append 16 chaddr (sname ++ (file ++ rest)) hc, take-append 64 sname (file ++ rest) hs)
        (to_array-eq 64 sname hs)

  behind_sname : (n : ℕ) → drop (80 + n) arrays ≡ drop n (file ++ rest)
  behind_sname n =
      let e : 80 + n ≡ 16 + (64 + n) = omega arith in
      rw (e, drop_past 16 (64 + n) chaddr (sname ++ (file ++ rest)) hc)
        (drop_past 64 n sname (file ++ rest) hs)

  file_slice : to_array 128 (take 128 (drop 80 arrays)) ≡ ok file
  file_slice = rw (behind_sname 0, take-append 128 file rest hf) (to_array-eq 128 file hf)

  pub behind_file : (n : ℕ) → drop (208 + n) arrays ≡ drop n rest
  behind_file n =
      let e : 208 + n ≡ 80 + (128 + n) = omega arith in
      rw (e, behind_sname (128 + n)) (drop_past 128 n file rest hf)

cookie_slice :
    (chaddr sname file rest : List ℕ)
    → length chaddr ≡ 16
    → length sname ≡ 64
    → length file ≡ 128
    → to_array 4 (take 4 (drop 208 (chaddr ++ (sname ++ (file ++ (cookie_bytes ++ rest))))))
      ≡ ok cookie_bytes
cookie_slice chaddr sname file rest hc hs hf =
    rw (behind_file chaddr sname file (cookie_bytes ++ rest) hc hs hf 0)
      (to_array-eq 4 cookie_bytes refl)

-- Reading the header of an assembled packet gives the fields that were written.
pub read_header-assemble :
    (p : DhcpPacket) (options file sname : List ℕ) (broadcast : Bool)
    → IsWellFormed p
    → length file ≡ 128
    → length sname ≡ 64
    → read_header (assemble p options file sname) broadcast
      ≡ ok (record p {
        sname = sname;
        file = file;
        options = record { options = [] };
        max_client_message_size = none;
        received_by_broadcast = broadcast;
      })
unfolding assemble read_header
read_header-assemble p options file sname broadcast w hf hs =
    let tail = cookie_bytes ++ pad_options options in
    let c = p.chaddr in
    let hc = w.chaddr_length in
    rw (
      read_header,
      chaddr_slice c sname file tail hc hs hf,
      sname_slice c sname file tail hc hs hf,
      file_slice c sname file tail hc hs hf,
      cookie_slice c sname file (pad_options options) hc hs hf,
      u32_bytes p.xid w.xid_u32,
      u16_bytes p.secs w.secs_u16,
      u16_bytes p.flags w.flags_u16,
      u32_bytes p.ciaddr w.ciaddr_u32,
      u32_bytes p.yiaddr w.yiaddr_u32,
      u32_bytes p.siaddr w.siaddr_u32,
      u32_bytes p.giaddr w.giaddr_u32,
      w.op_code,
      w.htype_code,
      w.cookie_fixed,
    )
