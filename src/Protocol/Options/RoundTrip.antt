-- ===== src/Protocol/Options/RoundTrip.antt =====
-- `DhcpOptions::to_network` and `DhcpOptions::from_network` against each other.
use rsdhcp.External.{ByteOrder}
use rsdhcp.Prelude.{All, List, [], append_assoc, ℕ, ◌++◌, ◌∷◌, ◌≡◌}
use rsdhcp.Protocol.Bytes.{IsByte}
use rsdhcp.Protocol.Errors.{ok, ok-injective}
use rsdhcp.Protocol.Option.{DhcpOption}
use rsdhcp.Protocol.Options.{DhcpOptions, from_list, from_network, to_network}
use rsdhcp.Protocol.Options.Grammar.{Holds, from_network-Holds}
use rsdhcp.Protocol.Options.Stream.{Holds-IsWire, Holds-option_bytes, IsWire}

module _ ⦃crate : ByteOrder⦄ where
  pub from_network_of_Holds :
      (raw : List ℕ) {os : List DhcpOption}
      → Holds raw os
      → from_network raw ≡ ok (record { options = os })
  from_network_of_Holds [] h = elim h [ ]
  from_network_of_Holds (c ∷ rest) {os} h = (from_network-Holds c rest os).1 h

  -- Options that a field can carry, written by `to_network` and read back by `from_network`, are
  -- the same options in the same order, whatever bytes follow the end option.
  pub from_network-to_network-append :
      (opts : DhcpOptions) (rest : List ℕ)
      → All IsWire opts.options
      → from_network (to_network opts ++ rest) ≡ ok opts
  unfolding to_network
  from_network-to_network-append opts rest w =
      rw append_assoc (from_network_of_Holds _ (Holds-option_bytes opts.options rest w))

  -- The options that are decoded from bytes are options that a field can carry.
  pub from_network-IsWire :
      (raw : List ℕ) (opts : DhcpOptions)
      → All IsByte raw
      → from_network raw ≡ ok opts
      → All IsWire opts.options
  from_network-IsWire [] opts h e = unfold from_network from_list in rw (← ok-injective e) tt
  from_network-IsWire (c ∷ rest) opts h e =
      Holds-IsWire ((from_network-Holds c rest opts.options).0 e) h

  -- Whatever bytes were decoded, the options read from them are read again from what `to_network`
  -- writes for them, with any bytes behind it.
  pub from_network_again :
      (raw rest : List ℕ) (opts : DhcpOptions)
      → All IsByte raw
      → from_network raw ≡ ok opts
      → from_network (to_network opts ++ rest) ≡ ok opts
  from_network_again raw rest opts h e =
      from_network-to_network-append opts rest (from_network-IsWire raw opts h e)
