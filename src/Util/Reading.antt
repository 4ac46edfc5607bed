-- ===== src/Util/Reading.antt =====
-- How RFC 1035, section 4.1.4, reads names from a message: labels up to the root, or up to a pointer
-- to a name that stands before.
use rsdhcp.Prelude.{
  List, [], ap, append_assoc, drop, drop-append, length, refl, suc, zero, ℕ, ◌++◌, ◌+◌, ◌<◌, ◌^◌,
  ◌∙◌, ◌∷◌, ◌≡◌,
}
use rsdhcp.Protocol.Bytes.{u16_from_be_bytes}

-- The bytes that stand at an offset.
abbrev pub At : List ℕ → ℕ → List ℕ → Type 0
At buf off bytes = (rest : List ℕ) × (drop off buf ≡ bytes ++ rest)

-- The labels of the name at an offset, and the offset behind it.
pub data Reads (buf : List ℕ) : ℕ → List (List ℕ) → ℕ → Type 0 where
  root : (off : ℕ) → At buf off (0 ∷ []) → Reads buf off [] (off + 1)
  label :
      (off next : ℕ) (l : List ℕ) (ls : List (List ℕ))
      → 0 < length l
      → length l < 64
      → At buf off (length l ∷ l)
      → Reads buf (off + suc (length l)) ls next
      → Reads buf off (l ∷ ls) next
  pointer :
      (off next target a b : ℕ) (ls : List (List ℕ))
      → At buf off (a ∷ b ∷ [])
      → u16_from_be_bytes a b ≡ target + 0xc000
      → target < 2 ^ 14
      → target < off
      → Reads buf target ls next
      → Reads buf off ls (off + 2)

-- Names one after another.
pub data ReadsAll (buf : List ℕ) : ℕ → List (List (List ℕ)) → ℕ → Type 0 where
  no_names : (off : ℕ) → ReadsAll buf off [] off
  name_then :
      (off next last : ℕ) (ls : List (List ℕ)) (names : List (List (List ℕ)))
      → Reads buf off ls next
      → ReadsAll buf next names last
      → ReadsAll buf off (ls ∷ names) last

drop-append_cons :
    (n : ℕ) (xs ys : List ℕ) (b : ℕ) (r : List ℕ)
    → drop n xs ≡ b ∷ r
    → drop n (xs ++ ys) ≡ (b ∷ r) ++ ys
drop-append_cons zero xs ys b r e = rw e refl
drop-append_cons (suc n) [] ys b r e = cc
drop-append_cons (suc n) (x ∷ xs) ys b r e = drop-append_cons n xs ys b r e

-- What stands in a message stands in a longer one.
pub At-append :
    (buf more : List ℕ) (off b : ℕ) (bytes : List ℕ)
    → At buf off (b ∷ bytes)
    → At (buf ++ more) off (b ∷ bytes)
At-append buf more off b bytes (rest, e) = (
  rest ++ more,
  drop-append_cons off buf more b (bytes ++ rest) e
      ∙ ap (λ t. b ∷ t) (append_assoc bytes rest more),
)

pub At-end : (buf bytes more : List ℕ) → At (buf ++ (bytes ++ more)) (length buf) bytes
At-end buf bytes more = (more, drop-append (length buf) buf (bytes ++ more) refl)

pub Reads-append :
    {buf : List ℕ} {off next : ℕ} {ls : List (List ℕ)} (more : List ℕ)
    → Reads buf off ls next
    → Reads (buf ++ more) off ls next
Reads-append {buf} more (root off here) = root off (At-append buf more off 0 [] here)
Reads-append {buf} more (label off next l ls some_byte short here r) =
    label off next l ls some_byte short (At-append buf more off (length l) l here)
      (Reads-append more r)
Reads-append {buf} more (pointer off next target a b ls here e small before r) =
    pointer off next target a b ls (At-append buf more off a (b ∷ []) here) e small before
      (Reads-append more r)
