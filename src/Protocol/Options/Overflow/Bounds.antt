-- ===== src/Protocol/Options/Overflow/Bounds.antt =====
-- The sizes of what `to_network_overflow` writes.
use rsdhcp.Prelude.{
  Bool, List, [], ap, arith, false, length, length-append, refl, some, true, ℕ, ◌++◌, ◌+◌, ◌∷◌, ◌≡◌,
  ◌≤◌,
}
use rsdhcp.Protocol.Option.{DhcpOption, code}
use rsdhcp.Protocol.Option.Wire.{value_bytes}
use rsdhcp.Protocol.Options.{DhcpOptions}
use rsdhcp.Protocol.Options.Overflow.{
  Areas, close_areas, ended, file_bytes_max, no_areas, overload_bytes, overload_val, place,
  place_all, reserved_bytes, sname_bytes_max, to_network_overflow,
}
use rsdhcp.Protocol.Value.{u8_to_network}
use rsdhcp.Protocol.Option.Wire

-- What the loop keeps: room for the overload and end options, and for an end in each field.
pub record Fits (max_len : ℕ) (use_file use_sname : Bool) (a : Areas) : Type 0 where
  pub main_fits : length a.bytes + reserved_bytes ≤ max_len
  pub file_fits : length a.file_bytes + 1 ≤ file_bytes_max
  pub sname_fits : length a.sname_bytes + 1 ≤ sname_bytes_max
  pub file_free : use_file ≡ false → a.file_bytes ≡ []
  pub sname_free : use_sname ≡ false → a.sname_bytes ≡ []

module _ (max_len : ℕ) (use_file use_sname : Bool) where
  place-Fits :
      (a : Areas) (o : DhcpOption)
      → Fits max_len use_file use_sname a
      → Fits max_len use_file use_sname (place max_len use_file use_sname a o)
  unfolding place
  place-Fits a o f = ground (
    arith,
    length-append a.bytes (Wire.to_network o),
    length-append a.file_bytes (Wire.to_network o),
    length-append a.sname_bytes (Wire.to_network o),
  )

  pub place_all-Fits :
      (a : Areas) (os : List DhcpOption)
      → Fits max_len use_file use_sname a
      → Fits max_len use_file use_sname (place_all max_len use_file use_sname a os)
  unfolding place_all
  place_all-Fits a [] f = f
  place_all-Fits a (o ∷ os) f =
      place_all-Fits (place max_len use_file use_sname a o) os (place-Fits a o f)

overload_bytes-length : (v : ℕ) → length (overload_bytes v) ≤ 3
unfolding Wire.to_network Wire.framed code value_bytes u8_to_network
overload_bytes-length v = ground arith

pub length-ended :
    (bs : List ℕ) (data_bytes : List ℕ)
    → ended bs ≡ some data_bytes
    → length data_bytes ≡ length bs + 1
length-ended [] d e = cc
length-ended (b ∷ bs) d e =
    let same : ((b ∷ bs) ++ 255 ∷ []) ≡ d = ground arith in
    rw (← same) (omega (arith, length-append bs (255 ∷ [])))

used :
    (usable : Bool) (bs d : List ℕ) → (usable ≡ false → bs ≡ []) → ended bs ≡ some d → usable ≡ true
used true bs d free e = refl
used false bs d free e = cc (ap ended (free refl))

area_bound :
    (usable : Bool) (bs d : List ℕ) (n : ℕ)
    → length bs + 1 ≤ n
    → (usable ≡ false → bs ≡ [])
    → ended bs ≡ some d
    → (length d ≤ n) × (usable ≡ true)
area_bound usable bs d n h free e = (omega (arith, length-ended bs d e), used usable bs d free e)

-- However many options there are, the option field has at most `max_len` bytes, if that is at
-- least 4, the data for the file field at most 128 and that for the sname field at most 64, and a
-- field that may not be used gets no data.
pub to_network_overflow-bounds :
    (opts : DhcpOptions) (max_len : ℕ) (use_file use_sname : Bool) (d : List ℕ)
    → 4 ≤ max_len
    → (length (to_network_overflow opts max_len use_file use_sname).bytes ≤ max_len)
      × ((to_network_overflow opts max_len use_file use_sname).file_data ≡ some d
          → (length d ≤ 128) × (use_file ≡ true))
      × ((to_network_overflow opts max_len use_file use_sname).sname_data ≡ some d
          → (length d ≤ 64) × (use_sname ≡ true))
unfolding to_network_overflow close_areas
to_network_overflow-bounds opts max_len use_file use_sname d h =
    let a = place_all max_len use_file use_sname no_areas opts.options in
    let f : Fits max_len use_file use_sname a =
      place_all-Fits max_len use_file use_sname no_areas opts.options (record {
        main_fits = h;
        file_fits = omega arith;
        sname_fits = omega arith;
        file_free = λ e. refl;
        sname_free = λ e. refl;
      }) in
    let v = overload_val a.file_bytes a.sname_bytes in
    (
      omega (
        arith,
        length-append a.bytes (overload_bytes v ++ 255 ∷ []),
        length-append (overload_bytes v) (255 ∷ []),
        overload_bytes-length v,
        f.main_fits,
      ),
      area_bound use_file a.file_bytes d 128 f.file_fits f.file_free,
      area_bound use_sname a.sname_bytes d 64 f.sname_fits f.sname_free,
    )
