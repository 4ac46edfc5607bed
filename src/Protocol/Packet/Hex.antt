-- ===== src/Protocol/Packet/Hex.antt =====
-- `hex_chaddr` of rsdhcp/src/protocol/packet.rs: the hardware address as text.
use rsdhcp.Backends.Netbox.Lookup.{hardware_address, u8_to_hex}
use rsdhcp.Prelude.{
  Bool, Bool-cases, List, [], append-nil, arith, dec_lt, false, if◌then◌else◌, inl, inr, length,
  length-take, le→ltb, ltb, ltb→lt, lt→ltb, min, not-ltb→le, refl, subst, suc, sym, take, true, ℕ,
  ◌++◌, ◌+◌, ◌-◌, ◌<◌, ◌∙◌, ◌∷◌, ◌≡◌, ◌≤◌,
}
use rsdhcp.Protocol.Packet.{DhcpPacket}
use rsdhcp.Text.{join, octet}

-- The loop from round `i` on: a colon follows unless the round is the last that `hlen` counts.
unfoldable pub hex_octets : ℕ → ℕ → List ℕ → List ℕ
unfolding octet
hex_octets hlen i [] = []
hex_octets hlen i (b ∷ bytes) =
    octet b ++ ((if ltb i (hlen - 1) then b':' ∷ [] else []) ++ hex_octets hlen (i + 1) bytes)

unfoldable pub hex_chaddr : DhcpPacket → List ℕ
unfolding hex_octets
hex_chaddr p = hex_octets p.hlen 0 (take (min p.hlen 16) p.chaddr)

abbrev pub trailing : Bool → List ℕ
trailing true = b':' ∷ []
trailing false = []

colon_after :
    (hlen i n : ℕ)
    → i + 1 ≡ n
    → (if ltb i (hlen - 1) then b':' ∷ [] else []) ≡ trailing (ltb n hlen)
colon_after hlen i n e = elim (Bool-cases (ltb n hlen)) [
  | inl t ↦ rw (t, lt→ltb i (hlen - 1) (omega (arith, e, ltb→lt n hlen t))) refl
  | inr f ↦ rw (f, le→ltb i (hlen - 1) (omega (arith, e, not-ltb→le n hlen f))) refl
]

hex_octets_lem :
    (hlen i n b : ℕ) (bytes : List ℕ)
    → i + suc (length bytes) ≡ n
    → n ≤ hlen
    → hex_octets hlen i (b ∷ bytes) ≡ u8_to_hex (b ∷ bytes) ++ trailing (ltb n hlen)
unfolding hex_octets u8_to_hex join octet
hex_octets_lem hlen i n b [] e h =
    rw
      (
        ← colon_after hlen i n (omega (arith, e)),
        append-nil {A = ℕ} (if ltb i (hlen - 1) then b':' ∷ [] else []),
      )
      refl
hex_octets_lem hlen i n b (c ∷ bytes) e h =
    rw
      (
        lt→ltb i (hlen - 1) (omega (arith, e, h)),
        hex_octets_lem hlen (i + 1) n c bytes (omega (arith, e)) h,
      )
      refl

hex_octets_whole :
    (hlen n : ℕ) (bytes : List ℕ)
    → length bytes ≡ n
    → n ≤ hlen
    → 0 < n
    → hex_octets hlen 0 bytes ≡ u8_to_hex bytes ++ trailing (ltb n hlen)
hex_octets_whole hlen n [] e h p = absurd (omega (arith, e))
hex_octets_whole hlen n (b ∷ bytes) e h p = hex_octets_lem hlen 0 n b bytes (omega (arith, e)) h

none_counted :
    (hlen : ℕ) (bytes : List ℕ)
    → hlen ≡ 0
    → hex_octets hlen 0 (take (min hlen 16) bytes)
      ≡ u8_to_hex (take (min hlen 16) bytes) ++ trailing (ltb 16 hlen)
unfolding hex_octets u8_to_hex join
none_counted hlen bytes e = rw e refl

-- The text is that of the netbox backend, but for a colon at its end where `hlen` is more than the
-- sixteen bytes of the field.
pub hex_chaddr-u8_to_hex :
    (p : DhcpPacket)
    → length p.chaddr ≡ 16
    → hex_chaddr p ≡ u8_to_hex (hardware_address p) ++ trailing (ltb 16 p.hlen)
unfolding hex_chaddr
hex_chaddr-u8_to_hex p h = rw h (elim (dec_lt 0 p.hlen) [
  | no z ↦ none_counted p.hlen p.chaddr (omega arith)
  | yes some_byte ↦ elim (dec_lt 16 p.hlen) [
    | yes more ↦
        hex_octets_whole p.hlen 16 (take (min p.hlen 16) p.chaddr)
          (omega (arith, h, length-take (min p.hlen 16) p.chaddr)) (omega arith) (omega arith)
    | no few ↦
        let same : ltb p.hlen p.hlen ≡ ltb 16 p.hlen =
          le→ltb p.hlen p.hlen (omega arith) ∙ sym (le→ltb 16 p.hlen (omega arith)) in
        let bytes = take (min p.hlen 16) p.chaddr in
        subst (λ t. hex_octets p.hlen 0 bytes ≡ u8_to_hex bytes ++ trailing t) same
          (hex_octets_whole p.hlen p.hlen bytes
            (omega (arith, h, length-take (min p.hlen 16) p.chaddr)) (omega arith) (omega arith))
  ]
])
