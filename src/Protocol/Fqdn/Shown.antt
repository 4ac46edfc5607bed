-- ===== src/Protocol/Fqdn/Shown.antt =====
-- The loop shows the parts of the name, and its fuel is enough.
use rsdhcp.Prelude.{
  ==_no, Bool, Bool-cases, List, [], ap, append-nil, append_assoc, arith, dec_lt, drop, drop_past,
  false, inl, inr, leb, length, length-append, length-drop, length-take, none, refl, some, subst,
  suc, sym, take, take-append, true, zero, ℕ, ◌++◌, ◌+◌, ◌<◌, ◌==◌, ◌∙◌, ◌∷◌, ◌≡◌, ◌≤◌,
}
use rsdhcp.Protocol.Fqdn.{
  Shows, cut_off, display, get_byte, get_range, no_text, nothing, root, shown, wire_parts,
}
use rsdhcp.Protocol.Value.{ClientFqdn}
use Prim.Native.Nat.{bit_and}

get_byte-append :
    (before rest : List ℕ) → get_byte (length before) (before ++ rest) ≡ get_byte 0 rest
unfolding get_byte
get_byte-append [] rest = refl
get_byte-append (b ∷ before) rest = get_byte-append before rest

take-drop : (n : ℕ) (xs : List ℕ) → take n xs ++ drop n xs ≡ xs
take-drop zero xs = refl
take-drop (suc n) [] = refl
take-drop (suc n) (x ∷ xs) = ap (λ t. x ∷ t) (take-drop n xs)

positive : (n : ℕ) → 0 < n → ¬ (n ≡ 0)
positive n h e = omega arith

leb_no : (a b : ℕ) → b < a → leb a b ≡ false
leb_no a b h = ground arith

leb_yes : (a b : ℕ) → a ≤ b → leb a b ≡ true
leb_yes a b h = ground arith

-- The part behind a length byte.
get_range-part :
    (before part rest : List ℕ) (n : ℕ)
    → length part ≡ n
    → get_range (length before + 1) n (before ++ n ∷ (part ++ rest)) ≡ some part
unfolding get_range
get_range-part before part rest n e =
    rw
      (
        leb_yes (length before + 1 + n) (length (before ++ n ∷ (part ++ rest)))
            (omega (arith, e, length-append before (n ∷ (part ++ rest)), length-append part rest)),
        drop_past (length before) 1 before (n ∷ (part ++ rest)) refl,
        take-append n part rest e,
      )
      refl

get_range-none :
    (before rest : List ℕ) (n : ℕ)
    → length rest < n
    → get_range (length before + 1) n (before ++ n ∷ rest) ≡ none
unfolding get_range
get_range-none before rest n h =
    rw
      (leb_no (length before + 1 + n) (length (before ++ n ∷ rest))
        (omega (arith, h, length-append before (n ∷ rest))))
      refl

module _ (is_utf8 : List ℕ → Bool) where
  record IsShown (fuel : ℕ) (before rest out : List ℕ) : Type 0 where
    text : List ℕ
    outcome : wire_parts is_utf8 fuel (length before) (before ++ rest) out ≡ some (out ++ text)
    shows : Shows is_utf8 rest text

  nothing_more :
      (fuel : ℕ) (before rest out : List ℕ)
      → wire_parts is_utf8 fuel (length before) (before ++ rest) out ≡ some out
      → Shows is_utf8 rest []
      → IsShown fuel before rest out
  nothing_more fuel before rest out e s = record {
    text = [];
    outcome = e ∙ ap some (sym (append-nil out));
    shows = s;
  }

  no_text-IsShown :
      (fuel : ℕ) (before part rest out : List ℕ) (n : ℕ)
      → length part ≡ n
      → 0 < n
      → is_utf8 part ≡ false
      → IsShown (suc fuel) before (n ∷ (part ++ rest)) out
  unfolding wire_parts
  no_text-IsShown fuel before part rest out n e h u =
      nothing_more (suc fuel) before (n ∷ (part ++ rest)) out
        (rw
          (
            wire_parts,
            get_byte-append before (n ∷ (part ++ rest)),
            ==_no (positive n h),
            get_range-part before part rest n e,
            u,
          )
          refl)
        (subst (λ x. Shows is_utf8 (x ∷ (part ++ rest)) []) e
          (no_text part rest (omega (arith, e, h)) u))

  part-IsShown :
      (fuel : ℕ) (before part rest out : List ℕ) (n : ℕ)
      → length part ≡ n
      → 0 < n
      → is_utf8 part ≡ true
      → IsShown fuel (before ++ n ∷ part) rest (out ++ (part ++ b'.' ∷ []))
      → IsShown (suc fuel) before (n ∷ (part ++ rest)) out
  unfolding wire_parts
  part-IsShown fuel before part rest out n e h u later =
      let bytes = before ++ n ∷ (part ++ rest) in
      let out' = out ++ (part ++ b'.' ∷ []) in
      let same : (before ++ n ∷ part) ++ rest ≡ bytes = append_assoc before (n ∷ part) rest in
      let start : length (before ++ n ∷ part) ≡ length before + 1 + n =
        omega (arith, e, length-append before (n ∷ part)) in
      let more : wire_parts is_utf8 fuel (length before + 1 + n) bytes out'
          ≡ some (out' ++ later.text) =
        subst (λ x. wire_parts is_utf8 fuel x bytes out' ≡ some (out' ++ later.text)) start
          (subst
            (λ b.
              wire_parts is_utf8 fuel (length (before ++ n ∷ part)) b out'
              ≡ some (out' ++ later.text))
            same later.outcome) in
      record {
        text = part ++ b'.' ∷ later.text;
        outcome =
            rw
              (
                wire_parts,
                get_byte-append before (n ∷ (part ++ rest)),
                ==_no (positive n h),
                get_range-part before part rest n e,
                u,
              )
              (more
                ∙ ap some (
                    append_assoc out (part ++ b'.' ∷ []) later.text
                    ∙ ap (λ t. out ++ t) (append_assoc part (b'.' ∷ []) later.text)));
        shows =
            subst (λ x. Shows is_utf8 (x ∷ (part ++ rest)) (part ++ b'.' ∷ later.text)) e
              (shown part rest later.text (omega (arith, e, h)) u later.shows);
      }

  wire_parts-IsShown :
      (fuel : ℕ) (before rest out : List ℕ) → length rest < fuel → IsShown fuel before rest out
  unfolding wire_parts get_byte
  wire_parts-IsShown zero before rest out h = absurd (omega arith)
  wire_parts-IsShown (suc fuel) before [] out h =
      nothing_more (suc fuel) before [] out (rw (wire_parts, get_byte-append before []) refl)
        nothing
  wire_parts-IsShown (suc fuel) before (n ∷ rest) out h = elim (Bool-cases (n == 0)) [
    | inl z ↦
        let is_root : n ≡ 0 = ground arith in
        nothing_more (suc fuel) before (n ∷ rest) out
          (rw (wire_parts, get_byte-append before (n ∷ rest), z) refl) (rw (is_root) (root rest))
    | inr nz ↦ elim (dec_lt (length rest) n) [
      | yes short ↦
          nothing_more (suc fuel) before (n ∷ rest) out
            (rw
              (
                wire_parts,
                get_byte-append before (n ∷ rest),
                nz,
                get_range-none before rest n short,
              )
              refl)
            (cut_off n rest (ground arith) short)
      | no long ↦
          let part = take n rest in
          let size : length part ≡ n = omega (arith, long, length-take n rest) in
          subst (λ r. IsShown (suc fuel) before (n ∷ r) out) (take-drop n rest)
            (elim (Bool-cases (is_utf8 part)) [
              | inr u ↦ no_text-IsShown fuel before part (drop n rest) out n size (ground arith) u
              | inl u ↦ part-IsShown fuel before part (drop n rest) out n size (ground arith) u (
                  wire_parts-IsShown fuel (before ++ n ∷ part) (drop n rest)
                    (out ++ (part ++ b'.' ∷ [])) (omega (arith, h, length-drop n rest)))
            ])
    ]
  ]

  -- A name in wire format is displayed as the parts up to the root, or up to one that is cut off or
  -- is no text.
  pub display-Shows :
      (fqdn : ClientFqdn)
      → (bit_and fqdn.flags 4 == 4) ≡ true
      → (text : List ℕ) × (display is_utf8 fqdn ≡ some text) × Shows is_utf8 fqdn.domain_name text
  unfolding display
  display-Shows fqdn wire =
      let done =
        wire_parts-IsShown (suc (length fqdn.domain_name)) [] fqdn.domain_name [] (omega arith) in
      (done.text, rw (wire) done.outcome, done.shows)
