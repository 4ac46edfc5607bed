-- ===== src/Protocol/Options/Stream.antt =====
-- Options written into an option field and read back.
use rsdhcp.Prelude.{
  All, All-drop, All-take, List, [], ap, append_assoc, arith, drop, drop-append, length,
  length-append, length-take, mod-eq_of_lt, refl, some, subst, sym, take, take-append, ℕ, ◌%◌, ◌++◌,
  ◌<◌, ◌∙◌, ◌∷◌, ◌≡◌, ◌≢◌,
}
use rsdhcp.Protocol.Bytes.{IsByte}
use rsdhcp.Protocol.Errors.{Result, err, ok}
use rsdhcp.Protocol.Option.{DhcpOption, code, end, pad}
use rsdhcp.Protocol.Option.Arms.{new}
use rsdhcp.Protocol.Option.Codec.{IsValid, new-value_bytes, value_of}
use rsdhcp.Protocol.Option.Sound.{new-Decoded}
use rsdhcp.Protocol.Option.Wire.{value_bytes}
use rsdhcp.Protocol.Options.{option_bytes, push_decoded}
use rsdhcp.Protocol.Options.Grammar.{Holds, finish, padding, tlv}
use rsdhcp.Protocol.Option.Wire

abbrev pub IsData : DhcpOption → Type 0
IsData pad = ⊥
IsData end = ⊥
IsData _ = Unit {0}

-- An option that a field can carry: neither pad nor end, with a value of its type whose length
-- fits the length byte.
pub record IsWire (o : DhcpOption) : Type 0 where
  pub carried : IsData o
  pub valid : IsValid o
  pub fits : length (value_of (value_bytes o)) < 256

pub IsData-value :
    (o : DhcpOption)
    → IsData o
    → (value_bytes o ≡ some (value_of (value_bytes o))) × (code o ≢ 0) × (code o ≢ 255)
unfolding value_bytes code
IsData-value pad h = absurd h
IsData-value end h = absurd h
IsData-value _ h = (refl, omega arith, omega arith)

code-IsData : (o : DhcpOption) → code o ≢ 0 → code o ≢ 255 → IsData o
unfolding code
code-IsData pad p q = absurd (p refl)
code-IsData end p q = absurd (q refl)
code-IsData _ p q = tt

-- An option that can be carried is written as its code, its value's length and its value.
pub to_network-IsWire :
    (o : DhcpOption)
    → IsWire o
    → Wire.to_network o ≡ code o ∷ length (value_of (value_bytes o)) ∷ value_of (value_bytes o)
unfolding Wire.to_network
to_network-IsWire o w =
    let (some_value, p, q) = IsData-value o w.carried in
    let small : length (value_of (value_bytes o)) % 256 ≡ length (value_of (value_bytes o)) =
      mod-eq_of_lt w.fits in
    ap (Wire.framed (code o)) some_value ∙ unfold Wire.framed in rw small

pub Holds-option :
    (o : DhcpOption) (rest : List ℕ) {os : List DhcpOption}
    → IsWire o
    → Holds rest os
    → Holds (Wire.to_network o ++ rest) (o ∷ os)
Holds-option o rest {os} w h =
    let bytes = value_of (value_bytes o) in
    let (some_value, p, q) = IsData-value o w.carried in
    let back : push_decoded (new (code o) (take (length bytes) (bytes ++ rest))) [] ++ os ≡ o ∷ os =
      rw (take-append (length bytes) bytes rest refl, new-value_bytes o w.valid)
        (unfold push_decoded in refl) in
    let behind : Holds (drop (length bytes) (bytes ++ rest)) os =
      rw (drop-append (length bytes) bytes rest refl) h in
    let held : Holds (code o ∷ length bytes ∷ (bytes ++ rest)) (o ∷ os) =
      subst (λ t. Holds (code o ∷ length bytes ∷ (bytes ++ rest)) t) back
        (tlv (code o) (length bytes) (bytes ++ rest) p q (omega (arith, length-append bytes rest))
          behind) in
    subst (λ t. Holds (t ++ rest) (o ∷ os)) (sym (to_network-IsWire o w)) held

pub Holds-option_bytes :
    (os : List DhcpOption) (rest : List ℕ)
    → All IsWire os
    → Holds (option_bytes os ++ 255 ∷ rest) os
unfolding option_bytes
Holds-option_bytes [] rest w = finish rest
Holds-option_bytes (o ∷ os) rest w =
    rw append_assoc
      (Holds-option o (option_bytes os ++ 255 ∷ rest) w.0 (Holds-option_bytes os rest w.1))

push_decoded-IsWire :
    (r : Result DhcpOption) (os : List DhcpOption)
    → ((o : DhcpOption) → r ≡ ok o → IsWire o)
    → All IsWire os
    → All IsWire (push_decoded r [] ++ os)
unfolding push_decoded
push_decoded-IsWire (ok o) os h t = (h o refl, t)
push_decoded-IsWire (err e) os h t = t

decoded-IsWire :
    (c : ℕ) (bytes : List ℕ) (o : DhcpOption)
    → c ≢ 0
    → c ≢ 255
    → length bytes < 256
    → All IsByte bytes
    → new c bytes ≡ ok o
    → IsWire o
decoded-IsWire c bytes o p q small h e =
    let (same, valid, smaller) = new-Decoded c bytes o h e in
    record {
      carried = code-IsData o (λ z. p (sym same ∙ z)) (λ z. q (sym same ∙ z));
      valid = valid;
      fits = omega arith;
    }

-- The options that a field of bytes holds are options that a field can carry.
pub Holds-IsWire :
    {raw : List ℕ} {os : List DhcpOption} → Holds raw os → All IsByte raw → All IsWire os
Holds-IsWire (finish rest) h = tt
Holds-IsWire (padding f) h = Holds-IsWire f h.1
Holds-IsWire (tlv c len rest {os = os} p q fits f) h =
    push_decoded-IsWire (new c (take len rest)) os
      (λ o e.
        decoded-IsWire c (take len rest) o p q (omega (arith, length-take len rest, h.1.0))
          (All-take IsByte len rest h.1.1) e)
      (Holds-IsWire f (All-drop IsByte len rest h.1.1))
