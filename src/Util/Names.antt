-- ===== src/Util/Names.antt =====
-- Domain names as lists of labels, and their text.
use rsdhcp.Prelude.{
  ==_no, All, Bool-cases, List, Option, [], ap, arith, false, inl, inr, length, none, refl, some,
  some-eq, sym, true, ℕ, ◌++◌, ◌<◌, ◌==◌, ◌∙◌, ◌∷◌, ◌≡◌,
}
use rsdhcp.Text.{join}
use rsdhcp.Util.{name_eq, split_once}

-- A label has between one and 63 bytes, none of them a dot.
abbrev pub IsLabel : List ℕ → Type 0
IsLabel l = (0 < length l) × (length l < 64) × All (λ c. ¬ (c ≡ b'.')) l

-- The name without labels is the root.
abbrev pub name_text : List (List ℕ) → List ℕ
unfolding join
name_text [] = b'.' ∷ []
name_text (l ∷ ls) = join b'.' (l ∷ ls)

pub name_text-cons :
    (l m : List ℕ) (ms : List (List ℕ)) → name_text (l ∷ m ∷ ms) ≡ l ++ b'.' ∷ name_text (m ∷ ms)
unfolding join
name_text-cons l m ms = refl

pub name_text-one : (l : List ℕ) → name_text (l ∷ []) ≡ l
unfolding join
name_text-one l = refl

pub split_once-dot :
    (l rest : List ℕ) → All (λ c. ¬ (c ≡ b'.')) l → split_once (l ++ b'.' ∷ rest) ≡ some (l, rest)
unfolding split_once
split_once-dot [] rest h = refl
split_once-dot (c ∷ cs) rest h = rw (==_no h.0, split_once-dot cs rest h.1) refl

pub split_once-none : (l : List ℕ) → All (λ c. ¬ (c ≡ b'.')) l → split_once l ≡ none
unfolding split_once
split_once-none [] h = refl
split_once-none (c ∷ cs) h = rw (==_no h.0, split_once-none cs h.1) refl

pub name_eq-eq : (xs ys : List ℕ) → name_eq xs ys ≡ true → xs ≡ ys
unfolding name_eq
name_eq-eq [] [] e = refl
name_eq-eq [] (y ∷ ys) e = cc
name_eq-eq (x ∷ xs) [] e = cc
name_eq-eq (x ∷ xs) (y ∷ ys) e = elim (Bool-cases (x == y)) [
  | inl t ↦
      let same : x ≡ y = ground arith in rw (same, name_eq-eq xs ys (rw (name_eq, t) at e)) refl
  | inr f ↦ let bad : false ≡ true = rw (name_eq, f) at e in cc
]

-- No name with a label looks like the root.
pub name_eq-root :
    (l : List ℕ) (ls : List (List ℕ)) → IsLabel l → name_eq (name_text (l ∷ ls)) (b'.' ∷ []) ≡ false
unfolding name_eq join
name_eq-root [] ls (some_byte, short, no_dot) = absurd (omega arith)
name_eq-root (c ∷ cs) [] (some_byte, short, no_dot) = rw (==_no (no_dot.0)) refl
name_eq-root (c ∷ cs) (m ∷ ms) (some_byte, short, no_dot) = rw (==_no (no_dot.0)) refl

pub split_once-name :
    (l m : List ℕ) (ms : List (List ℕ))
    → All (λ c. ¬ (c ≡ b'.')) l
    → split_once (name_text (l ∷ m ∷ ms)) ≡ some (l, name_text (m ∷ ms))
split_once-name l m ms h = rw (name_text-cons l m ms) (split_once-dot l (name_text (m ∷ ms)) h)

-- One label is no name of several.
differs_from_longer :
    (l m m' : List ℕ) (ms : List (List ℕ))
    → All (λ c. ¬ (c ≡ b'.')) l
    → All (λ c. ¬ (c ≡ b'.')) m
    → ¬ (name_text (l ∷ []) ≡ name_text (m ∷ m' ∷ ms))
differs_from_longer l m m' ms h k e =
    let bad : ◌≡◌ {A = Option (List ℕ × List ℕ)} none (some (m, name_text (m' ∷ ms))) =
      sym (split_once-none l h)
      ∙ (ap split_once (sym (name_text-one l) ∙ e) ∙ split_once-name m m' ms k) in
    cc

-- The text of a name determines its labels.
pub name_text-injective :
    (l : List ℕ) (ls : List (List ℕ)) (m : List ℕ) (ms : List (List ℕ))
    → All IsLabel (l ∷ ls)
    → All IsLabel (m ∷ ms)
    → name_text (l ∷ ls) ≡ name_text (m ∷ ms)
    → l ∷ ls ≡ m ∷ ms
name_text-injective l [] m [] h k e =
    ap (λ t. t ∷ []) (sym (name_text-one l) ∙ (e ∙ name_text-one m))
name_text-injective l [] m (m' ∷ ms) h k e = absurd (differs_from_longer l m m' ms h.0.2 k.0.2 e)
name_text-injective l (l' ∷ ls) m [] h k e =
    absurd (differs_from_longer m l l' ls k.0.2 h.0.2 (sym e))
name_text-injective l (l' ∷ ls) m (m' ∷ ms) h k e =
    let pair : (l, name_text (l' ∷ ls)) ≡ (m, name_text (m' ∷ ms)) =
      some-eq
        (sym (split_once-name l l' ls h.0.2) ∙ (ap split_once e ∙ split_once-name m m' ms k.0.2)) in
    let more : l' ∷ ls ≡ m' ∷ ms = name_text-injective l' ls m' ms h.1 k.1 (ap (λ x. x.1) pair) in
    let first : l ≡ m = ap (λ x. x.0) pair in rw (first, more) refl
