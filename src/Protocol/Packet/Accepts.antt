-- ===== src/Protocol/Packet/Accepts.antt =====
-- Which bytes `DhcpPacket::from_network` accepts, and with which error it refuses the others.
use rsdhcp.External.{ByteOrder}
use rsdhcp.Prelude.{
  All, Bool, Bool-cases, List, [], arith, dec_lt, drop, inl, inr, length, length-drop, le→ltb, ltb,
  ltb→lt, not-ltb→le, sym, ℕ, ◌<◌, ◌↔◌, ◌∙◌, ◌∷◌, ◌≡◌, ◌≢◌, ◌≤◌, ◌⊎◌,
}
use rsdhcp.Protocol.Bytes.{IsByte}
use rsdhcp.Protocol.Errors.{
  >>=-eq-ok, PacketError, Result, err, incorrect_cookie, insufficient_bytes, ok, ◌>>=◌,
}
use rsdhcp.Protocol.Option.{DhcpOption}
use rsdhcp.Protocol.Options.{DhcpOptions}
use rsdhcp.Protocol.Options.Grammar.{Breaks, Holds, from_network-Breaks, from_network-Holds}
use rsdhcp.Protocol.Options.RoundTrip.{from_network_of_Holds}
use rsdhcp.Protocol.Packet.{DhcpPacket, cookie_bytes, from_network, read_options, slice}
use rsdhcp.Protocol.Packet.Checked.{from_network_checked, from_network_short}
use rsdhcp.Protocol.Options

bind_error :
    (m : Result DhcpOptions) (p : DhcpPacket) {e : PacketError}
    → (m >>= λ options. ok (record p { options = options })) ≡ err e
    → m ≡ err e
bind_error (ok a) p h = cc
bind_error (err x) p h = ground arith

module _ ⦃crate : ByteOrder⦄ where
  -- What the option area behind the cookie must be for the packet to be accepted.
  abbrev pub HasOptionField : List ℕ → Type 0
  HasOptionField raw = (length raw ≡ 240) ⊎ ((os : List DhcpOption) × Holds (drop 240 raw) os)

  field_of_options :
      (raw : List ℕ) (opts : DhcpOptions)
      → Options.from_network raw ≡ ok opts
      → 0 < length raw
      → Holds raw opts.options
  field_of_options [] opts e h = absurd (omega arith)
  field_of_options (c ∷ rest) opts e h = (from_network-Holds c rest opts.options).0 e

  read_options-field :
      (raw : List ℕ) (p q : DhcpPacket)
      → 240 ≤ length raw
      → read_options raw p ≡ ok q
      → HasOptionField raw
  unfolding read_options
  read_options-field raw p q long e = elim (Bool-cases (ltb 240 (length raw))) [
    | inl t ↦
        let (opts, decoded, made) =
          >>=-eq-ok (Options.from_network (drop 240 raw)) _ (rw (read_options, t) at e) in
        inr (
          opts.options,
          field_of_options (drop 240 raw) opts decoded
              (omega (arith, length-drop 240 raw, ltb→lt 240 (length raw) t)),
        )
    | inr f ↦ inl (omega (arith, not-ltb→le 240 (length raw) f))
  ]

  read_options_of_field :
      (raw : List ℕ) (p : DhcpPacket)
      → HasOptionField raw
      → (q : DhcpPacket) × (read_options raw p ≡ ok q)
  unfolding read_options
  read_options_of_field raw p (inl exact) =
      (p, rw (read_options, le→ltb 240 (length raw) (omega arith)))
  read_options_of_field raw p (inr (os, h)) = elim (Bool-cases (ltb 240 (length raw))) [
    | inl t ↦ (
      record p { options = record { options = os } },
      rw (read_options, t, from_network_of_Holds (drop 240 raw) h),
    )
    | inr f ↦ (p, rw (read_options, f))
  ]

  -- `from_network` accepts bytes exactly when there are at least 240 of them, the DHCP cookie stands
  -- at offset 236, and behind it there is nothing or an option field as the grammar has it.
  pub from_network_accepts :
      (raw : List ℕ) (broadcast : Bool)
      → All IsByte raw
      → ((p : DhcpPacket) × (from_network raw broadcast ≡ ok p))
        ↔ ((240 ≤ length raw) × (slice 236 240 raw ≡ cookie_bytes) × HasOptionField raw)
  from_network_accepts raw broadcast bytes = (
    (λ (p, e). elim (dec_lt (length raw) 240) [
      | yes h ↦ cc (from_network_short raw broadcast h)
      | no h ↦ elim (from_network_checked raw broadcast (omega arith) bytes) [
        | inl (wrong, refused) ↦ cc
        | inr (right, (q, w, none_yet, step)) ↦
            (omega arith, right, read_options-field raw q p (omega arith) (sym step ∙ e))
      ]
    ]),
    (λ (long, right, field). elim (from_network_checked raw broadcast long bytes) [
      | inl (wrong, refused) ↦ absurd (wrong right)
      | inr (same, (q, w, none_yet, step)) ↦
          let (p, read) = read_options_of_field raw q field in (p, step ∙ read)
    ]),
  )

  read_options-Breaks :
      (raw : List ℕ) (p : DhcpPacket) (e : PacketError)
      → read_options raw p ≡ err e
      → Breaks (drop 240 raw) e
  unfolding read_options
  read_options-Breaks raw p e h = elim (Bool-cases (ltb 240 (length raw))) [
    | inl t ↦
        from_network-Breaks (drop 240 raw) e
          (bind_error (Options.from_network (drop 240 raw)) p (rw (read_options, t) at h))
    | inr f ↦ cc (rw (read_options, f) at h)
  ]

  -- The errors of `from_network`, each with its cause: too few bytes; another cookie; or, behind
  -- the right cookie, an option field that ends before a code or a length, or that has a length which runs
  -- past its end. The conversions of slices to arrays never fail.
  pub from_network-error :
      (raw : List ℕ) (broadcast : Bool) (e : PacketError)
      → All IsByte raw
      → from_network raw broadcast ≡ err e
      → ((e ≡ insufficient_bytes) × (length raw < 240))
        ⊎ (((e ≡ incorrect_cookie) × (slice 236 240 raw ≢ cookie_bytes))
            ⊎ (Breaks (drop 240 raw) e × (slice 236 240 raw ≡ cookie_bytes)))
  from_network-error raw broadcast e bytes h = elim (dec_lt (length raw) 240) [
    | yes few ↦ inl (ground (arith, from_network_short raw broadcast few), few)
    | no enough ↦ elim (from_network_checked raw broadcast (omega arith) bytes) [
      | inl (wrong, refused) ↦ inr (inl (ground arith, wrong))
      | inr (right, (q, w, none_yet, step)) ↦
          inr (inr (read_options-Breaks raw q e (sym step ∙ h), right))
    ]
  ]
