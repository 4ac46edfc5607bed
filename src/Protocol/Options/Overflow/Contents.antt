-- ===== src/Protocol/Options/Overflow/Contents.antt =====
-- What a client reads from the three places that `to_network_overflow` writes.
use rsdhcp.Prelude.{
  All, Bool, Bool-cases, List, [], append-nil, append_assoc, arith, if◌then◌else◌, inl, inr, ltb,
  none, refl, some, sym, ℕ, ◌++◌, ◌∙◌, ◌∷◌, ◌≡◌, ◌⊎◌,
}
use rsdhcp.Protocol.Bytes.{IsByte}
use rsdhcp.Protocol.Option.{DhcpOption, overload}
use rsdhcp.Protocol.Option.Wire.{value_bytes}
use rsdhcp.Protocol.Options.{option_bytes}
use rsdhcp.Protocol.Options.Overflow.{Areas, ended, overload_bytes, place, place_all}
use rsdhcp.Protocol.Options.Stream.{IsWire, to_network-IsWire}
use rsdhcp.Protocol.Value.{is_empty, u8_to_network}
use rsdhcp.Protocol.Option.Wire

-- Each option, in order, goes to the option field, to the file field, to the sname field, or
-- nowhere.
pub data Shares
    : List DhcpOption
      → List DhcpOption
      → List DhcpOption
      → List DhcpOption
      → List DhcpOption
      → Type 0 where
  nothing : Shares [] [] [] [] []
  to_main :
      (o : DhcpOption) {os m f s d : List DhcpOption}
      → Shares os m f s d
      → Shares (o ∷ os) (o ∷ m) f s d
  to_file :
      (o : DhcpOption) {os m f s d : List DhcpOption}
      → Shares os m f s d
      → Shares (o ∷ os) m (o ∷ f) s d
  to_sname :
      (o : DhcpOption) {os m f s d : List DhcpOption}
      → Shares os m f s d
      → Shares (o ∷ os) m f (o ∷ s) d
  to_none :
      (o : DhcpOption) {os m f s d : List DhcpOption}
      → Shares os m f s d
      → Shares (o ∷ os) m f s (o ∷ d)

-- How the options were shared out, with the bytes that each place got for its share.
pub record Shared (a final : Areas) (os : List DhcpOption) : Type 0 where
  pub main : List DhcpOption
  pub file : List DhcpOption
  pub sname : List DhcpOption
  pub dropped : List DhcpOption
  pub shares : Shares os main file sname dropped
  pub main_bytes : final.bytes ≡ a.bytes ++ option_bytes main
  pub file_area : final.file_bytes ≡ a.file_bytes ++ option_bytes file
  pub sname_area : final.sname_bytes ≡ a.sname_bytes ++ option_bytes sname

-- The four ways to go on from an option, over the areas after it.
abbrev Step : Areas → Areas → DhcpOption → Type 0
Step a b o =
    (b ≡ record a { bytes = a.bytes ++ Wire.to_network o })
    ⊎ ((b ≡ record a { file_bytes = a.file_bytes ++ Wire.to_network o })
        ⊎ ((b ≡ record a { sname_bytes = a.sname_bytes ++ Wire.to_network o }) ⊎ (b ≡ a)))

behind :
    (xs : List ℕ) (o : DhcpOption) (os : List DhcpOption)
    → (xs ++ Wire.to_network o) ++ option_bytes os ≡ xs ++ option_bytes (o ∷ os)
unfolding option_bytes
behind xs o os = append_assoc xs (Wire.to_network o) (option_bytes os)

share_one :
    (a b final : Areas) (o : DhcpOption) (os : List DhcpOption)
    → Step a b o
    → Shared b final os
    → Shared a final (o ∷ os)
share_one a b final o os (inl e) h = record {
  main = o ∷ h.main;
  file = h.file;
  sname = h.sname;
  dropped = h.dropped;
  shares = to_main o h.shares;
  main_bytes = h.main_bytes ∙ rw e (behind a.bytes o h.main);
  file_area = h.file_area ∙ rw e;
  sname_area = h.sname_area ∙ rw e;
}
share_one a b final o os (inr (inl e)) h = record {
  main = h.main;
  file = o ∷ h.file;
  sname = h.sname;
  dropped = h.dropped;
  shares = to_file o h.shares;
  main_bytes = h.main_bytes ∙ rw e;
  file_area = h.file_area ∙ rw e (behind a.file_bytes o h.file);
  sname_area = h.sname_area ∙ rw e;
}
share_one a b final o os (inr (inr (inl e))) h = record {
  main = h.main;
  file = h.file;
  sname = o ∷ h.sname;
  dropped = h.dropped;
  shares = to_sname o h.shares;
  main_bytes = h.main_bytes ∙ rw e;
  file_area = h.file_area ∙ rw e;
  sname_area = h.sname_area ∙ rw e (behind a.sname_bytes o h.sname);
}
share_one a b final o os (inr (inr (inr e))) h = record {
  main = h.main;
  file = h.file;
  sname = h.sname;
  dropped = o ∷ h.dropped;
  shares = to_none o h.shares;
  main_bytes = h.main_bytes ∙ rw e;
  file_area = h.file_area ∙ rw e;
  sname_area = h.sname_area ∙ rw e;
}

module _ (max_len : ℕ) (use_file use_sname : Bool) where
  -- A step puts the option's bytes at the end of one area, or changes nothing.
  place_cases : (a : Areas) (o : DhcpOption) → Step a (place max_len use_file use_sname a o) o
  unfolding place
  place_cases a o = ground arith

  pub share_all :
      (a : Areas) (os : List DhcpOption) → Shared a (place_all max_len use_file use_sname a os) os
  unfolding place_all option_bytes
  share_all a [] = record {
    main = [];
    file = [];
    sname = [];
    dropped = [];
    shares = nothing;
    main_bytes = sym (append-nil a.bytes);
    file_area = sym (append-nil a.file_bytes);
    sname_area = sym (append-nil a.sname_bytes);
  }
  share_all a (o ∷ os) =
      let b = place max_len use_file use_sname a o in
      share_one a b (place_all max_len use_file use_sname b os) o os (place_cases a o)
        (share_all b os)

pub Shares-IsWire :
    {os m f s d : List DhcpOption}
    → Shares os m f s d
    → All IsWire os
    → All IsWire m × All IsWire f × All IsWire s
Shares-IsWire nothing w = (tt, tt, tt)
Shares-IsWire (to_main o h) w = let (m, f, s) = Shares-IsWire h w.1 in ((w.0, m), f, s)
Shares-IsWire (to_file o h) w = let (m, f, s) = Shares-IsWire h w.1 in (m, (w.0, f), s)
Shares-IsWire (to_sname o h) w = let (m, f, s) = Shares-IsWire h w.1 in (m, f, (w.0, s))
Shares-IsWire (to_none o h) w = Shares-IsWire h w.1

-- The overload option that tells the client which fields hold options.
abbrev pub overload_option : ℕ → List DhcpOption
overload_option v = if ltb 0 v then overload v ∷ [] else []

abbrev pub flag : List DhcpOption → ℕ → ℕ
flag [] v = 0
flag (o ∷ os) v = v

overload-IsWire : (v : ℕ) → IsByte v → IsWire (overload v)
unfolding value_bytes u8_to_network
overload-IsWire v h = record { carried = tt; valid = h; fits = omega arith }

pub overload_bytes-options : (v : ℕ) → overload_bytes v ≡ option_bytes (overload_option v)
unfolding option_bytes
overload_bytes-options v = ground (arith, append-nil (Wire.to_network (overload v)))

pub option_bytes-append :
    (os ps : List DhcpOption) → option_bytes (os ++ ps) ≡ option_bytes os ++ option_bytes ps
unfolding option_bytes
option_bytes-append [] ps = refl
option_bytes-append (o ∷ os) ps = rw (option_bytes-append os ps, append_assoc)

pub overload_option-IsWire : (v : ℕ) → IsByte v → All IsWire (overload_option v)
overload_option-IsWire v h = elim (Bool-cases (ltb 0 v)) [
  | inl t ↦ rw t (overload-IsWire v h, tt)
  | inr f ↦ rw f tt
]

-- What a client reads from one of the two header fields: the share, if the field was used.
pub area_of_option_bytes :
    (os : List DhcpOption) (v : ℕ)
    → All IsWire os
    → ((if is_empty (option_bytes os) then 0 else v) ≡ flag os v)
      × (ended (option_bytes os)
          ≡ (if is_empty os then none else some (option_bytes os ++ 255 ∷ [])))
area_of_option_bytes [] v w = unfold option_bytes in (refl, refl)
area_of_option_bytes (o ∷ os) v w =
    let e : option_bytes (o ∷ os) ≡ Wire.to_network o ++ option_bytes os =
      unfold option_bytes in refl in
    rw (e, to_network-IsWire o w.0) (refl, refl)
