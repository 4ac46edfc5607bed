-- ===== src/Util/Compression.antt =====
-- What the loop for one name writes.
use rsdhcp.Prelude.{
  All, List, Option-cases, [], ap, arith, inl, inr, length, length-append, lt→ltb, some, subst, suc,
  sym, zero, ℕ, ◌++◌, ◌+◌, ◌<◌, ◌^◌, ◌∙◌, ◌∷◌, ◌≡◌, ◌≤◌,
}
use rsdhcp.Text.{join}
use rsdhcp.Util.{Offsets, name_eq, name_loop, offset_of, part_bytes, split_once, written}
use rsdhcp.Util.Known.{IsEntryOf, all_known-append, offset_of-Reads, room}
use rsdhcp.Util.Names.{
  IsLabel, name_eq-root, name_text, name_text-cons, name_text-one, split_once-name, split_once-none,
}
use rsdhcp.Util.Written.{
  IsWritten, label-IsWritten, last-IsWritten, pointer-IsWritten, root-IsWritten,
}

found-IsWritten :
    (fuel : ℕ) (known : Offsets) (l : List ℕ) (ls : List (List ℕ)) (c : List ℕ) (added : Offsets)
    (offset : ℕ)
    → All IsLabel (l ∷ ls)
    → All (IsEntryOf c) known
    → length c + room (l ∷ ls) ≤ 2 ^ 14
    → offset_of (name_text (l ∷ ls)) known ≡ some offset
    → IsWritten c added (l ∷ ls) (name_loop (suc fuel) known (name_text (l ∷ ls)) c added)
unfolding name_loop
found-IsWritten fuel known l ls c added offset v k small e =
    let (inside, (next, r)) = offset_of-Reads c l ls known offset v k e in
    rw (name_eq-root l ls v.0, e, lt→ltb offset (2 ^ 16) (omega arith))
      (pointer-IsWritten c added l ls offset next (omega arith) inside r)

-- A name with a label, from any bytes on in which the known names stand.
name_loop-IsWritten :
    (fuel : ℕ) (known : Offsets) (l : List ℕ) (ls : List (List ℕ)) (c : List ℕ) (added : Offsets)
    → All IsLabel (l ∷ ls)
    → All (IsEntryOf c) known
    → length (name_text (l ∷ ls)) < fuel
    → length c + room (l ∷ ls) ≤ 2 ^ 14
    → IsWritten c added (l ∷ ls) (name_loop fuel known (name_text (l ∷ ls)) c added)
unfolding name_loop
name_loop-IsWritten zero known l ls c added v k enough small = absurd (omega arith)
name_loop-IsWritten (suc fuel) known l [] c added v k enough small =
    elim (Option-cases (offset_of (name_text (l ∷ [])) known)) [
      | inr (offset, e) ↦ found-IsWritten fuel known l [] c added offset v k small e
      | inl e ↦
          rw
            (
              name_eq-root l [] v.0,
              e,
              ap split_once (name_text-one l) ∙ split_once-none l v.0.2,
              lt→ltb (length (name_text (l ∷ []))) 256
                  (omega (arith, v.0.1, ap length (name_text-one l))),
            )
            (subst
              (λ t.
                IsWritten c added (l ∷ []) (
                  written (c ++ (part_bytes t ++ 0 ∷ [])) ((name_text (l ∷ []), length c) ∷ added)))
              (sym (name_text-one l)) (last-IsWritten c added l v.0))
    ]
name_loop-IsWritten (suc fuel) known l (m ∷ ms) c added v k enough small =
    elim (Option-cases (offset_of (name_text (l ∷ m ∷ ms)) known)) [
      | inr (offset, e) ↦ found-IsWritten fuel known l (m ∷ ms) c added offset v k small e
      | inl e ↦
          let size = length-append l (b'.' ∷ name_text (m ∷ ms)) in
          let text = ap length (name_text-cons l m ms) in
          let c' = c ++ part_bytes l in
          rw
            (
              name_eq-root l (m ∷ ms) v.0,
              e,
              split_once-name l m ms v.0.2,
              lt→ltb (length l) 256 (omega (arith, v.0.1)),
            )
            (label-IsWritten c added l m ms _ v (
              name_loop-IsWritten fuel known m ms c' ((name_text (l ∷ m ∷ ms), length c) ∷ added)
                v.1 (all_known-append (part_bytes l) c known k) (omega (arith, enough, size, text))
                (omega (arith, small, size, text, length-append c (part_bytes l)))))
    ]

pub any_name-IsWritten :
    (known : Offsets) (ls : List (List ℕ)) (c : List ℕ)
    → All IsLabel ls
    → All (IsEntryOf c) known
    → length c + room ls ≤ 2 ^ 14
    → IsWritten c [] ls (name_loop (suc (length (name_text ls))) known (name_text ls) c [])
unfolding name_loop name_eq join
any_name-IsWritten known [] c v k small = root-IsWritten c []
any_name-IsWritten known (l ∷ ls) c v k small =
    name_loop-IsWritten (suc (length (name_text (l ∷ ls)))) known l ls c [] v k (omega arith) small
