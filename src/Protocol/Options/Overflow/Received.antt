-- ===== src/Protocol/Options/Overflow/Received.antt =====
-- Decoding what `to_network_overflow` wrote.
use rsdhcp.External.{ByteOrder}
use rsdhcp.Prelude.{
  All, All-append, Bool, List, [], ap, append_assoc, arith, none, refl, some, sym, ℕ, ◌++◌, ◌+◌,
  ◌∙◌, ◌∷◌, ◌≡◌,
}
use rsdhcp.Protocol.Bytes.{IsByte}
use rsdhcp.Protocol.Errors.{ok}
use rsdhcp.Protocol.Option.{DhcpOption}
use rsdhcp.Protocol.Options.{DhcpOptions, from_network, option_bytes}
use rsdhcp.Protocol.Options.Overflow.{
  Overflowed, close_areas, ended, no_areas, overload_bytes, overload_val, to_network_overflow,
}
use rsdhcp.Protocol.Options.Overflow.Contents.{
  Shares, Shares-IsWire, area_of_option_bytes, flag, option_bytes-append, overload_bytes-options,
  overload_option, overload_option-IsWire, share_all,
}
use rsdhcp.Protocol.Options.RoundTrip.{from_network_of_Holds}
use rsdhcp.Protocol.Options.Stream.{Holds-option_bytes, IsWire}

-- What a client that reads the three places finds: each option in one of them or in none, in
-- order, and the overload option behind those of the option field just if a field was used.
pub record Received ⦃crate : ByteOrder⦄ (os : List DhcpOption) (r : Overflowed) : Type 0 where
  pub main : List DhcpOption
  pub file : List DhcpOption
  pub sname : List DhcpOption
  pub dropped : List DhcpOption
  pub shares : Shares os main file sname dropped
  pub main_read :
      (rest : List ℕ)
      → from_network (r.bytes ++ rest)
        ≡ ok (record { options = main ++ overload_option (flag file 1 + flag sname 2) })
  pub file_read :
      (d rest : List ℕ)
      → r.file_data ≡ some d
      → from_network (d ++ rest) ≡ ok (record { options = file })
  pub sname_read :
      (d rest : List ℕ)
      → r.sname_data ≡ some d
      → from_network (d ++ rest) ≡ ok (record { options = sname })
  pub file_unused : r.file_data ≡ none → file ≡ []
  pub sname_unused : r.sname_data ≡ none → sname ≡ []

flags-lt : (file sname : List DhcpOption) → IsByte (flag file 1 + flag sname 2)
flags-lt [] [] = omega arith
flags-lt [] (o ∷ os) = omega arith
flags-lt (o ∷ os) [] = omega arith
flags-lt (o ∷ os) (p ∷ ps) = omega arith

module _ ⦃crate : ByteOrder⦄ where
  read_bytes :
      (os : List DhcpOption) (rest : List ℕ)
      → All IsWire os
      → from_network ((option_bytes os ++ 255 ∷ []) ++ rest) ≡ ok (record { options = os })
  read_bytes os rest w = rw append_assoc (from_network_of_Holds _ (Holds-option_bytes os rest w))

  area_read :
      (os : List DhcpOption) (v : ℕ) (d rest : List ℕ)
      → All IsWire os
      → ended (option_bytes os) ≡ some d
      → from_network (d ++ rest) ≡ ok (record { options = os })
  area_read [] v d rest w e = cc ((area_of_option_bytes [] v w).1)
  area_read (o ∷ os) v d rest w e =
      let same : d ≡ option_bytes (o ∷ os) ++ 255 ∷ [] =
        cc ((area_of_option_bytes (o ∷ os) v w).1) in
      rw same (read_bytes (o ∷ os) rest w)

  area_unused : (os : List DhcpOption) → All IsWire os → ended (option_bytes os) ≡ none → os ≡ []
  area_unused [] w e = refl
  area_unused (o ∷ os) w e = cc ((area_of_option_bytes (o ∷ os) 1 w).1)

  main_reads :
      (os file sname : List DhcpOption) (rest : List ℕ)
      → All IsWire os
      → All IsWire file
      → All IsWire sname
      → from_network (
          (option_bytes os
            ++ (overload_bytes (overload_val (option_bytes file) (option_bytes sname)) ++ 255 ∷ []))
          ++ rest)
        ≡ ok (record { options = os ++ overload_option (flag file 1 + flag sname 2) })
  main_reads os file sname rest w wf ws =
      let v = flag file 1 + flag sname 2 in
      let same : overload_val (option_bytes file) (option_bytes sname) ≡ v =
        ground (arith, area_of_option_bytes file 1 wf, area_of_option_bytes sname 2 ws) in
      let all : All IsWire (os ++ overload_option v) =
        All-append IsWire os (overload_option v) w
          (overload_option-IsWire v (flags-lt file sname)) in
      rw (same, overload_bytes-options v, ← append_assoc (option_bytes os), ← option_bytes-append)
        (read_bytes (os ++ overload_option v) rest all)

  -- A client that decodes the option field, the file field if there is data for it and the sname
  -- field if there is data for it finds the options that can be carried, each in one of the places
  -- or in none, in their order, with the overload option that names the fields in use. What stands
  -- behind the written bytes does not matter.
  pub to_network_overflow-Received :
      (opts : DhcpOptions) (max_len : ℕ) (use_file use_sname : Bool)
      → All IsWire opts.options
      → Received opts.options (to_network_overflow opts max_len use_file use_sname)
  unfolding to_network_overflow close_areas
  to_network_overflow-Received opts max_len use_file use_sname w =
      let s = share_all max_len use_file use_sname no_areas opts.options in
      let (wm, wf, ws) = Shares-IsWire s.shares w in
      record {
        main = s.main;
        file = s.file;
        sname = s.sname;
        dropped = s.dropped;
        shares = s.shares;
        main_read = λ rest.
            rw (s.main_bytes, s.file_area, s.sname_area)
              (main_reads s.main s.file s.sname rest wm wf ws);
        file_read = λ d rest e. area_read s.file 1 d rest wf (ap ended (sym s.file_area) ∙ e);
        sname_read = λ d rest e. area_read s.sname 2 d rest ws (ap ended (sym s.sname_area) ∙ e);
        file_unused = λ e. area_unused s.file wf (ap ended (sym s.file_area) ∙ e);
        sname_unused = λ e. area_unused s.sname ws (ap ended (sym s.sname_area) ∙ e);
      }
