-- ===== src/Text/Plain.antt =====
-- Texts that the decoder of string options gives back.
use rsdhcp.Prelude.{
  All, All-append, Bool-cases, List, [], arith, inl, inr, length, length-append, ltb, ltb→lt, map,
  refl, ℕ, ◌%◌, ◌*◌, ◌/◌, ◌<◌, ◌∷◌, ◌≡◌, ◌≤◌,
}
use rsdhcp.Protocol.Bytes.{IsByte, u32_to_be_bytes}
use rsdhcp.Protocol.Value.{trim_end}
use rsdhcp.Protocol.Value.Laws.{IsText}
use rsdhcp.Text.{decimal, ipv4_text, join}

-- A text of ASCII without zeros.
abbrev pub IsPlain : List ℕ → Type 0
IsPlain s = All (λ b. (0 < b) × (b < 128)) s

plain-below : (s : List ℕ) → IsPlain s → All (λ b. b < 128) s
plain-below [] h = tt
plain-below (b ∷ bs) h = (h.0.1, plain-below bs h.1)

plain-trim_end : (s : List ℕ) → IsPlain s → trim_end s ≡ s
unfolding trim_end
plain-trim_end [] h = refl
plain-trim_end (b ∷ bs) h = ground (arith, plain-trim_end bs h.1, h.0)

pub plain-IsText : (s : List ℕ) → IsPlain s → IsText s
plain-IsText s h = (plain-below s h, plain-trim_end s h)

-- The decimal digits of a byte.
decimal-IsPlain : (b : ℕ) → IsByte b → IsPlain (decimal b) × (length (decimal b) ≤ 3)
unfolding decimal
decimal-IsPlain b h = elim (Bool-cases (ltb b 10)) [
  | inl t ↦ let one = ltb→lt b 10 t in rw (t) (((omega (arith, one), tt), omega arith))
  | inr f ↦ elim (Bool-cases (ltb b 100)) [
    | inl t ↦
        let two = ltb→lt b 100 t in
        rw (f, t) (((omega (arith, two), (omega arith, tt)), omega arith))
    | inr g ↦ rw (f, g) (((omega arith, (omega arith, (omega arith, tt))), omega arith))
  ]
]

join-IsPlain :
    (parts : List (List ℕ))
    → All (λ s. IsPlain s × (length s ≤ 3)) parts
    → IsPlain (join b'.' parts) × (length (join b'.' parts) ≤ 4 * length parts)
unfolding join
join-IsPlain [] h = (tt, omega arith)
join-IsPlain (s ∷ []) h = (h.0.0, omega (arith, h.0.1))
join-IsPlain (s ∷ t ∷ parts) h =
    let (plain, short) = join-IsPlain (t ∷ parts) h.1 in
    (
      All-append (λ b. (0 < b) × (b < 128)) s (b'.' ∷ join b'.' (t ∷ parts)) h.0.0
          (omega arith, plain),
      omega (arith, h.0.1, short, length-append s (b'.' ∷ join b'.' (t ∷ parts))),
    )

pub ipv4_text-IsPlain : (ip : ℕ) → IsPlain (ipv4_text ip) × (length (ipv4_text ip) < 256)
unfolding ipv4_text u32_to_be_bytes
ipv4_text-IsPlain ip =
    let part = λ (n : ℕ). decimal-IsPlain (n % 256) (omega arith) in
    let (plain, short) =
      join-IsPlain (map decimal (u32_to_be_bytes ip))
        (part (ip / 16_777_216), (part (ip / 65_536), (part (ip / 256), (part ip, tt)))) in
    (plain, omega (arith, short))
