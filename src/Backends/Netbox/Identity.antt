-- ===== src/Backends/Netbox/Identity.antt =====
-- The text of an identifier tells the bytes: two clients with different identifiers have different
-- texts, under which NetBox keeps their leases.
use rsdhcp.Backends.Netbox.Lookup.{u8_to_hex}
use rsdhcp.Prelude.{
  All, List, [], ap, append-nil, arith, drop, if◌then◌else◌, length, ltb, refl, sym, ℕ, ◌%◌, ◌*◌,
  ◌++◌, ◌+◌, ◌-◌, ◌/◌, ◌<◌, ◌∙◌, ◌∷◌, ◌≡◌,
}
use rsdhcp.Protocol.Bytes.{IsByte}
use rsdhcp.Text.{hex_digit, join, octet}
use mathlib.Core.Path.{ap₂}

-- The two digits of an octet, read back.
digit_value : ℕ → ℕ
digit_value d = if ltb d 65 then d - 48 else d - 55

octet_value : List ℕ → ℕ
octet_value (a ∷ b ∷ rest) = digit_value a * 16 + digit_value b
octet_value _ = 0

digit_value-hex_digit : (n : ℕ) → n < 16 → digit_value (hex_digit n) ≡ n
unfolding digit_value hex_digit
digit_value-hex_digit n h = ground arith

-- An octet, with what follows it.
octet_value-octet : (b : ℕ) (rest : List ℕ) → IsByte b → octet_value (octet b ++ rest) ≡ b
unfolding octet_value octet
octet_value-octet b rest h = omega (
  arith,
  digit_value-hex_digit (b / 16) (omega arith),
  digit_value-hex_digit (b % 16) (omega arith),
)

length-u8_to_hex : (b : ℕ) (bytes : List ℕ) → length (u8_to_hex (b ∷ bytes)) ≡ 2 + 3 * length bytes
unfolding u8_to_hex join octet
length-u8_to_hex b [] = refl
length-u8_to_hex b (c ∷ bytes) = omega (arith, length-u8_to_hex c bytes)

octet_value-u8_to_hex :
    (b : ℕ) (bytes : List ℕ) → IsByte b → octet_value (u8_to_hex (b ∷ bytes)) ≡ b
unfolding u8_to_hex join
octet_value-u8_to_hex b [] h = rw (← append-nil (octet b)) (octet_value-octet b [] h)
octet_value-u8_to_hex b (c ∷ bytes) h = octet_value-octet b _ h

-- Behind the first octet and its colon.
drop-u8_to_hex :
    (b c : ℕ) (bytes : List ℕ) → drop 3 (u8_to_hex (b ∷ c ∷ bytes)) ≡ u8_to_hex (c ∷ bytes)
unfolding u8_to_hex join octet
drop-u8_to_hex b c bytes = refl

length-u8_to_hex_nil : length (u8_to_hex []) ≡ 0
unfolding u8_to_hex join
length-u8_to_hex_nil = refl

first_same :
    (x y : ℕ) (xs ys : List ℕ)
    → IsByte x
    → IsByte y
    → u8_to_hex (x ∷ xs) ≡ u8_to_hex (y ∷ ys)
    → x ≡ y
first_same x y xs ys h k e =
    sym (octet_value-u8_to_hex x xs h) ∙ (ap octet_value e ∙ octet_value-u8_to_hex y ys k)

-- The text of an identifier determines its bytes.
pub u8_to_hex-injective :
    (xs ys : List ℕ) → All IsByte xs → All IsByte ys → u8_to_hex xs ≡ u8_to_hex ys → xs ≡ ys
u8_to_hex-injective [] [] h k e = refl
u8_to_hex-injective [] (y ∷ ys) h k e =
    absurd (omega (arith, ap length e, length-u8_to_hex_nil, length-u8_to_hex y ys))
u8_to_hex-injective (x ∷ xs) [] h k e =
    absurd (omega (arith, ap length e, length-u8_to_hex_nil, length-u8_to_hex x xs))
u8_to_hex-injective (x ∷ []) (y ∷ []) h k e = ap (λ z. z ∷ []) (first_same x y [] [] h.0 k.0 e)
u8_to_hex-injective (x ∷ []) (y ∷ y' ∷ ys) h k e =
    absurd (omega (arith, ap length e, length-u8_to_hex x [], length-u8_to_hex y (y' ∷ ys)))
u8_to_hex-injective (x ∷ x' ∷ xs) (y ∷ []) h k e =
    absurd (omega (arith, ap length e, length-u8_to_hex x (x' ∷ xs), length-u8_to_hex y []))
u8_to_hex-injective (x ∷ x' ∷ xs) (y ∷ y' ∷ ys) h k e =
    let tail =
      u8_to_hex-injective (x' ∷ xs) (y' ∷ ys) h.1 k.1
        (sym (drop-u8_to_hex x x' xs) ∙ (ap (drop 3) e ∙ drop-u8_to_hex y y' ys)) in
    ap₂ ◌∷◌ (first_same x y (x' ∷ xs) (y' ∷ ys) h.0 k.0 e) tail
