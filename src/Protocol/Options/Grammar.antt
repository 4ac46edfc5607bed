-- ===== src/Protocol/Options/Grammar.antt =====
-- The option field as a grammar, and `from_network` as its decision.
use rsdhcp.External.{ByteOrder}
use rsdhcp.Prelude.{
  List, [], append-nil, append_assoc, arith, drop, length, length-drop, refl, subst, suc, sym, take,
  zero, ℕ, ◌++◌, ◌<◌, ◌↔◌, ◌∙◌, ◌∷◌, ◌≡◌, ◌≢◌, ◌≤◌,
}
use rsdhcp.Protocol.Errors.{PacketError, Result, err, io_error, malformed_packet, ok, out_of_fuel}
use rsdhcp.Protocol.Option.{DhcpOption}
use rsdhcp.Protocol.Option.Arms.{new}
use rsdhcp.Protocol.Options.{
  DhcpOptions, again, from_network, leave, push_decoded, read_loop, read_round,
}
use rsdhcp.Protocol.Options.Rounds.{
  Shape, at_end, at_pad, cut_value, no_bytes, no_length, push_decoded-append, round_cut,
  round_empty, round_end, round_pad, round_short, round_value, shape, whole_value,
}

-- The bytes of an option field, and the options that they hold: pads are skipped, an end option
-- ends the field, what stands behind it does not matter, and a value that its code does not decode
-- is left out.
pub data Holds : List ℕ → List DhcpOption → Type 0 where
  finish : (rest : List ℕ) → Holds (255 ∷ rest) []
  padding : {rest : List ℕ} {os : List DhcpOption} → Holds rest os → Holds (0 ∷ rest) os
  tlv :
      (c len : ℕ) (rest : List ℕ) {os : List DhcpOption}
      → c ≢ 0
      → c ≢ 255
      → len ≤ length rest
      → Holds (drop len rest) os
      → Holds (c ∷ len ∷ rest) (push_decoded (new c (take len rest)) [] ++ os)

-- The bytes that hold no options, with the error that says so: they end before a code or a length, or
-- a length runs past them, behind pads and whole options.
pub data Breaks : List ℕ → PacketError → Type 0 where
  ends : Breaks [] io_error
  ends_at_code : (c : ℕ) → c ≢ 0 → c ≢ 255 → Breaks (c ∷ []) io_error
  overruns :
      (c len : ℕ) (rest : List ℕ)
      → c ≢ 0
      → c ≢ 255
      → length rest < len
      → Breaks (c ∷ len ∷ rest) malformed_packet
  behind_pad : {rest : List ℕ} {e : PacketError} → Breaks rest e → Breaks (0 ∷ rest) e
  behind_option :
      (c len : ℕ) (rest : List ℕ) {e : PacketError}
      → c ≢ 0
      → c ≢ 255
      → len ≤ length rest
      → Breaks (drop len rest) e
      → Breaks (c ∷ len ∷ rest) e

-- The errors with which the loop of the source is left.
abbrev pub IsReadError : PacketError → Type 0
IsReadError io_error = Unit {0}
IsReadError malformed_packet = Unit {0}
IsReadError _ = ⊥

io_error-IsReadError :
    {e : PacketError} → ◌≡◌ {A = Result DhcpOptions} (err io_error) (err e) → IsReadError e
io_error-IsReadError {e} h = let same : io_error ≡ e = cc in subst IsReadError same tt

malformed-IsReadError :
    {e : PacketError} → ◌≡◌ {A = Result DhcpOptions} (err malformed_packet) (err e) → IsReadError e
malformed-IsReadError {e} h = let same : malformed_packet ≡ e = cc in subst IsReadError same tt

module _ ⦃crate : ByteOrder⦄ where
  loop_step :
      (fuel : ℕ) (cursor cursor' : List ℕ) (os os' : List DhcpOption)
      → read_round cursor os ≡ again cursor' os'
      → read_loop (suc fuel) cursor os ≡ read_loop fuel cursor' os'
  unfolding read_loop
  loop_step fuel cursor cursor' os os' e = rw (e, read_loop)

  loop_leave :
      (fuel : ℕ) (cursor : List ℕ) (os : List DhcpOption) (r : Result DhcpOptions)
      → read_round cursor os ≡ leave r
      → read_loop (suc fuel) cursor os ≡ r
  unfolding read_loop
  loop_leave fuel cursor os r e = rw (e, read_loop)

  no_fuel : (cursor : List ℕ) (os : List DhcpOption) → read_loop zero cursor os ≡ err out_of_fuel
  unfolding read_loop
  no_fuel cursor os = refl

  -- With a round for each byte the loop finds what the field holds.
  pub read_loop_complete :
      (fuel : ℕ) {cursor : List ℕ} {found : List DhcpOption}
      → Holds cursor found
      → length cursor < fuel
      → (os : List DhcpOption) → read_loop fuel cursor os ≡ ok (record { options = os ++ found })
  read_loop_complete zero h k os = absurd (omega arith)
  read_loop_complete (suc fuel) (finish rest) k os =
      loop_leave fuel _ os _ (round_end rest os) ∙ rw append-nil
  read_loop_complete (suc fuel) (padding {rest = rest} h) k os =
      loop_step fuel _ _ os os (round_pad rest os) ∙ read_loop_complete fuel h (omega arith) os
  read_loop_complete (suc fuel) (tlv c len rest {os = found} p q fits h) k os =
      let next = push_decoded (new c (take len rest)) os in
      loop_step fuel _ _ os next (round_value c p q os len rest fits)
      ∙ read_loop_complete fuel h (omega (arith, length-drop len rest)) next
      ∙ rw (push_decoded-append (new c (take len rest)) os, append_assoc)

  case_derives :
      (fuel : ℕ)
      → ((cursor : List ℕ) (os : List DhcpOption) (r : DhcpOptions)
          → read_loop fuel cursor os ≡ ok r
          → (found : List DhcpOption) × Holds cursor found × (r.options ≡ os ++ found))
      → {cursor : List ℕ} → Shape cursor
      → (os : List DhcpOption) (r : DhcpOptions) → read_loop (suc fuel) cursor os ≡ ok r
      → (found : List DhcpOption) × Holds cursor found × (r.options ≡ os ++ found)
  case_derives fuel ih no_bytes os r e = cc (loop_leave fuel [] os _ (round_empty os))
  case_derives fuel ih (at_end rest) os r e =
      ([], finish rest, rw append-nil (cc (loop_leave fuel _ os _ (round_end rest os))))
  case_derives fuel ih (at_pad rest) os r e =
      let (found, h, made) =
        ih rest os r (sym (loop_step fuel _ _ os os (round_pad rest os)) ∙ e) in
      (found, padding h, made)
  case_derives fuel ih (no_length c p q) os r e = cc (loop_leave fuel _ os _ (round_short c p q os))
  case_derives fuel ih (cut_value c len rest p q h) os r e =
      cc (loop_leave fuel _ os _ (round_cut c p q os len rest h))
  case_derives fuel ih (whole_value c len rest p q fits) os r e =
      let next = push_decoded (new c (take len rest)) os in
      let step = loop_step fuel _ _ os next (round_value c p q os len rest fits) in
      let (found, h, made) = ih (drop len rest) next r (sym step ∙ e) in
      (
        push_decoded (new c (take len rest)) [] ++ found,
        tlv c len rest p q fits h,
        made ∙ rw (push_decoded-append (new c (take len rest)) os, append_assoc),
      )

  -- What the loop answers is what the field holds.
  pub read_loop_derives :
      (fuel : ℕ) (cursor : List ℕ) (os : List DhcpOption) (r : DhcpOptions)
      → read_loop fuel cursor os ≡ ok r
      → (found : List DhcpOption) × Holds cursor found × (r.options ≡ os ++ found)
  read_loop_derives zero cursor os r e = cc (no_fuel cursor os)
  read_loop_derives (suc fuel) cursor os r e =
      case_derives fuel (read_loop_derives fuel) (shape cursor) os r e

  case_errors :
      (fuel : ℕ)
      → ((cursor : List ℕ) (os : List DhcpOption) (e : PacketError)
          → length cursor < fuel
          → read_loop fuel cursor os ≡ err e
          → IsReadError e)
      → {cursor : List ℕ} → Shape cursor
      → (os : List DhcpOption) (e : PacketError) → length cursor < suc fuel
      → read_loop (suc fuel) cursor os ≡ err e
      → IsReadError e
  case_errors fuel ih no_bytes os e k h =
      io_error-IsReadError (sym (loop_leave fuel [] os _ (round_empty os)) ∙ h)
  case_errors fuel ih (at_end rest) os e k h = cc (loop_leave fuel _ os _ (round_end rest os))
  case_errors fuel ih (at_pad rest) os e k h =
      ih rest os e (omega arith) (sym (loop_step fuel _ _ os os (round_pad rest os)) ∙ h)
  case_errors fuel ih (no_length c p q) os e k h =
      io_error-IsReadError (sym (loop_leave fuel _ os _ (round_short c p q os)) ∙ h)
  case_errors fuel ih (cut_value c len rest p q cut) os e k h =
      malformed-IsReadError (sym (loop_leave fuel _ os _ (round_cut c p q os len rest cut)) ∙ h)
  case_errors fuel ih (whole_value c len rest p q fits) os e k h =
      let next = push_decoded (new c (take len rest)) os in
      let step = loop_step fuel _ _ os next (round_value c p q os len rest fits) in
      ih (drop len rest) next e (omega (arith, length-drop len rest)) (sym step ∙ h)

  read_loop-errors :
      (fuel : ℕ) (cursor : List ℕ) (os : List DhcpOption) (e : PacketError)
      → length cursor < fuel
      → read_loop fuel cursor os ≡ err e
      → IsReadError e
  read_loop-errors zero cursor os e k h = absurd (omega arith)
  read_loop-errors (suc fuel) cursor os e k h =
      case_errors fuel (read_loop-errors fuel) (shape cursor) os e k h

  -- The loop that decodes an option field always ends by one of the program's own exits: the only
  -- errors are that of reading past the end and `Malformed Packet`, so on no input does
  -- `from_network` run out of rounds.
  pub from_network-errors :
      (raw : List ℕ) (e : PacketError) → from_network raw ≡ err e → IsReadError e
  unfolding from_network
  from_network-errors [] e h = cc
  from_network-errors (c ∷ rest) e h =
      read_loop-errors (suc (length (c ∷ rest))) (c ∷ rest) [] e (omega arith) h

  -- A field that is not empty decodes to options exactly when the grammar says that it holds just
  -- those options in that order.
  pub from_network-Holds :
      (c : ℕ) (rest : List ℕ) (os : List DhcpOption)
      → (from_network (c ∷ rest) ≡ ok (record { options = os })) ↔ Holds (c ∷ rest) os
  unfolding from_network
  from_network-Holds c rest os = (
    (λ e.
        let (found, h, made) = read_loop_derives (suc (suc (length rest))) (c ∷ rest) [] _ e in
        subst (λ t. Holds (c ∷ rest) t) (sym made) h),
    (λ h. read_loop_complete (suc (suc (length rest))) h (omega arith) []),
  )

  err-eq : {x e : PacketError} → ◌≡◌ {A = Result DhcpOptions} (err x) (err e) → x ≡ e
  err-eq h = cc

  case_Breaks :
      (fuel : ℕ)
      → ((cursor : List ℕ) (os : List DhcpOption) (e : PacketError)
          → length cursor < fuel
          → read_loop fuel cursor os ≡ err e
          → Breaks cursor e)
      → {cursor : List ℕ} → Shape cursor
      → (os : List DhcpOption) (e : PacketError) → length cursor < suc fuel
      → read_loop (suc fuel) cursor os ≡ err e
      → Breaks cursor e
  case_Breaks fuel ih no_bytes os e k h =
      subst (Breaks []) (err-eq (sym (loop_leave fuel [] os _ (round_empty os)) ∙ h)) ends
  case_Breaks fuel ih (at_end rest) os e k h = cc (loop_leave fuel _ os _ (round_end rest os))
  case_Breaks fuel ih (at_pad rest) os e k h =
      behind_pad
        (ih rest os e (omega arith) (sym (loop_step fuel _ _ os os (round_pad rest os)) ∙ h))
  case_Breaks fuel ih (no_length c p q) os e k h =
      subst (Breaks (c ∷ [])) (err-eq (sym (loop_leave fuel _ os _ (round_short c p q os)) ∙ h))
        (ends_at_code c p q)
  case_Breaks fuel ih (cut_value c len rest p q cut) os e k h =
      subst (Breaks (c ∷ len ∷ rest))
        (err-eq (sym (loop_leave fuel _ os _ (round_cut c p q os len rest cut)) ∙ h))
        (overruns c len rest p q cut)
  case_Breaks fuel ih (whole_value c len rest p q fits) os e k h =
      let next = push_decoded (new c (take len rest)) os in
      let step = loop_step fuel _ _ os next (round_value c p q os len rest fits) in
      behind_option c len rest p q fits
        (ih (drop len rest) next e (omega (arith, length-drop len rest)) (sym step ∙ h))

  read_loop-Breaks :
      (fuel : ℕ) (cursor : List ℕ) (os : List DhcpOption) (e : PacketError)
      → length cursor < fuel
      → read_loop fuel cursor os ≡ err e
      → Breaks cursor e
  read_loop-Breaks zero cursor os e k h = absurd (omega arith)
  read_loop-Breaks (suc fuel) cursor os e k h =
      case_Breaks fuel (read_loop-Breaks fuel) (shape cursor) os e k h

  -- An error of the decoder has its cause in the bytes.
  pub from_network-Breaks :
      (raw : List ℕ) (e : PacketError) → from_network raw ≡ err e → Breaks raw e
  unfolding from_network
  from_network-Breaks [] e h = cc
  from_network-Breaks (c ∷ rest) e h =
      read_loop-Breaks (suc (length (c ∷ rest))) (c ∷ rest) [] e (omega arith) h
