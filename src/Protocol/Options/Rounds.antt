-- ===== src/Protocol/Options/Rounds.antt =====
-- What one round of the option loop does, by the shape of what the cursor has left.
use rsdhcp.External.{ByteOrder}
use rsdhcp.Prelude.{
  List, [], append-nil, arith, dec_lt, drop, length, refl, subst, sym, take, ℕ, ℕ_discrete, ◌++◌,
  ◌<◌, ◌∙◌, ◌∷◌, ◌≡◌, ◌≢◌, ◌≤◌,
}
use rsdhcp.Protocol.Errors.{Result, err, io_error, malformed_packet, ok}
use rsdhcp.Protocol.Option.{DhcpOption}
use rsdhcp.Protocol.Option.Arms.{new}
use rsdhcp.Protocol.Options.{again, leave, push_decoded, read_round, read_value}

module _ ⦃crate : ByteOrder⦄ where
  pub round_empty : (os : List DhcpOption) → read_round [] os ≡ leave (err io_error)
  unfolding read_round
  round_empty os = rw (crate.read_u8-nil, read_round)

  pub round_end :
      (rest : List ℕ) (os : List DhcpOption)
      → read_round (255 ∷ rest) os ≡ leave (ok (record { options = os }))
  unfolding read_round
  round_end rest os = rw (crate.read_u8-cons 255 rest, read_round)

  pub round_pad : (rest : List ℕ) (os : List DhcpOption) → read_round (0 ∷ rest) os ≡ again rest os
  unfolding read_round
  round_pad rest os = rw (crate.read_u8-cons 0 rest, read_round)

  -- A code that is neither pad nor end is followed by a length and a value.
  module _ (c : ℕ) (not_pad : c ≢ 0) (not_end : c ≢ 255) (os : List DhcpOption) where
    round_value_of : (rest : List ℕ) → read_round (c ∷ rest) os ≡ read_value c rest os
    unfolding read_round
    round_value_of rest = rw (crate.read_u8-cons c rest, read_round) (ground arith)

    pub round_short : read_round (c ∷ []) os ≡ leave (err io_error)
    round_short = round_value_of [] ∙ unfold read_value in rw (crate.read_u8-nil, read_value)

    pub round_cut :
        (len : ℕ) (rest : List ℕ)
        → length rest < len
        → read_round (c ∷ len ∷ rest) os ≡ leave (err malformed_packet)
    round_cut len rest h =
        round_value_of (len ∷ rest)
        ∙ unfold read_value in rw (crate.read_u8-cons len rest, read_value) (ground arith)

    pub round_value :
        (len : ℕ) (rest : List ℕ)
        → len ≤ length rest
        → read_round (c ∷ len ∷ rest) os
          ≡ again (drop len rest) (push_decoded (new c (take len rest)) os)
    round_value len rest h =
        round_value_of (len ∷ rest)
        ∙ unfold read_value in rw (crate.read_u8-cons len rest, read_value) (ground arith)

-- What a round adds stands behind what there was.
pub push_decoded-append :
    (r : Result DhcpOption) (os : List DhcpOption) → push_decoded r os ≡ os ++ push_decoded r []
unfolding push_decoded
push_decoded-append (ok o) os = refl
push_decoded-append (err e) os = sym (append-nil os)

-- The ways in which a cursor can stand before a round.
pub data Shape : List ℕ → Type 0 where
  no_bytes : Shape []
  at_end : (rest : List ℕ) → Shape (255 ∷ rest)
  at_pad : (rest : List ℕ) → Shape (0 ∷ rest)
  no_length : (c : ℕ) → c ≢ 0 → c ≢ 255 → Shape (c ∷ [])
  cut_value :
      (c len : ℕ) (rest : List ℕ) → c ≢ 0 → c ≢ 255 → length rest < len → Shape (c ∷ len ∷ rest)
  whole_value :
      (c len : ℕ) (rest : List ℕ) → c ≢ 0 → c ≢ 255 → len ≤ length rest → Shape (c ∷ len ∷ rest)

value_round : (c : ℕ) (rest : List ℕ) → c ≢ 0 → c ≢ 255 → Shape (c ∷ rest)
value_round c [] p q = no_length c p q
value_round c (len ∷ rest) p q = elim (dec_lt (length rest) len) [
  | yes h ↦ cut_value c len rest p q h
  | no h ↦ whole_value c len rest p q (omega arith)
]

pub shape : (cursor : List ℕ) → Shape cursor
shape [] = no_bytes
shape (c ∷ rest) = elim (ℕ_discrete c 255) [
  | yes p ↦ subst (λ k. Shape (k ∷ rest)) (sym p) (at_end rest)
  | no p ↦ elim (ℕ_discrete c 0) [
    | yes q ↦ subst (λ k. Shape (k ∷ rest)) (sym q) (at_pad rest)
    | no q ↦ value_round c rest q p
  ]
]
