-- ===== src/Util/Known.antt =====
-- The offsets of names that stand in what is written.
-- The bytes that a name and its offsets may take, at most.
use rsdhcp.Prelude.{
  All, Bool-cases, List, [], arith, inl, inr, length, length-append, some, some-eq, subst, sym, ℕ,
  ◌++◌, ◌+◌, ◌<◌, ◌∙◌, ◌∷◌, ◌≡◌,
}
use rsdhcp.Util.{Offsets, name_eq, offset_of}
use rsdhcp.Util.Names.{IsLabel, name_eq-eq, name_text, name_text-injective}
use rsdhcp.Util.Reading.{Reads, Reads-append}

abbrev pub room : List (List ℕ) → ℕ
room ls = length (name_text ls) + 2

abbrev pub room_all : List (List (List ℕ)) → ℕ
room_all [] = 0
room_all (ls ∷ names) = room ls + room_all names

-- A name with its offset, which stands there in what is written.
pub record IsEntryOf (buf : List ℕ) (entry : List ℕ × ℕ) : Type 0 where
  pub first : List ℕ
  pub others : List (List ℕ)
  pub valid : All IsLabel (first ∷ others)
  pub text_is : entry.0 ≡ name_text (first ∷ others)
  pub inside : entry.1 < length buf
  pub next : ℕ
  pub reads : Reads buf entry.1 (first ∷ others) next

IsEntryOf-append :
    (more buf : List ℕ) (entry : List ℕ × ℕ) → IsEntryOf buf entry → IsEntryOf (buf ++ more) entry
IsEntryOf-append more buf entry k = record {
  first = k.first;
  others = k.others;
  valid = k.valid;
  text_is = k.text_is;
  inside = omega (arith, length-append buf more, k.inside);
  next = k.next;
  reads = Reads-append more k.reads;
}

pub all_known-append :
    (more buf : List ℕ) (known : Offsets)
    → All (IsEntryOf buf) known
    → All (IsEntryOf (buf ++ more)) known
all_known-append more buf [] h = tt
all_known-append more buf (entry ∷ known) (h, hs) =
    (IsEntryOf-append more buf entry h, all_known-append more buf known hs)

-- What a search finds is the offset of the name that was searched for.
pub offset_of-Reads :
    (buf : List ℕ) (l : List ℕ) (ls : List (List ℕ)) (known : Offsets) (offset : ℕ)
    → All IsLabel (l ∷ ls)
    → All (IsEntryOf buf) known
    → offset_of (name_text (l ∷ ls)) known ≡ some offset
    → (offset < length buf) × ((next : ℕ) × Reads buf offset (l ∷ ls) next)
unfolding offset_of
offset_of-Reads buf l ls [] offset v k e = cc
offset_of-Reads buf l ls ((text, found) ∷ known) offset v (k, ks) e =
    elim (Bool-cases (name_eq text (name_text (l ∷ ls)))) [
      | inl t ↦
          let same : found ≡ offset = some-eq (rw (offset_of, t) at e) in
          let names : k.first ∷ k.others ≡ l ∷ ls =
            name_text-injective k.first k.others l ls k.valid v
              (sym k.text_is ∙ name_eq-eq text (name_text (l ∷ ls)) t) in
          (
            subst (λ x. x < length buf) same k.inside,
            (
              k.next,
              subst (λ x. Reads buf x (l ∷ ls) k.next) same
                  (subst (λ x. Reads buf found x k.next) names k.reads),
            ),
          )
      | inr f ↦ offset_of-Reads buf l ls known offset v ks (rw (offset_of, f) at e)
    ]
