-- ===== src/Util/Written.antt =====
-- The ways in which a name is written: as a pointer, the root, a last label, or a label and more.
use rsdhcp.Prelude.{
  All, All-append, List, [], ap, append_assoc, arith, drop-append, drop_past, length, length-append,
  refl, subst, suc, sym, ℕ, ◌%◌, ◌++◌, ◌+◌, ◌/◌, ◌<◌, ◌^◌, ◌∙◌, ◌∷◌, ◌≡◌, ◌≤◌,
}
use rsdhcp.Protocol.Bytes.{u16_bytes, u16_to_be_bytes}
use rsdhcp.Util.{Offsets, Outcome, part_bytes, written}
use rsdhcp.Util.Known.{IsEntryOf, room}
use rsdhcp.Util.Names.{IsLabel, name_text, name_text-cons, name_text-one}
use rsdhcp.Util.Pointer.{bit_or-pointer}
use rsdhcp.Util.Reading.{At, Reads, Reads-append, label, pointer, root}
use Prim.Native.Nat.{bit_or}

-- What the loop for one name leaves, from bytes `c` and offsets `added` on.
pub record IsWritten (c : List ℕ) (added : Offsets) (ls : List (List ℕ)) (out : Outcome)
    : Type 0 where
  pub bytes : List ℕ
  pub new : Offsets
  pub outcome : out ≡ written (c ++ bytes) (new ++ added)
  pub reads : Reads (c ++ bytes) (length c) ls (length (c ++ bytes))
  pub known : All (IsEntryOf (c ++ bytes)) new
  pub short : length bytes ≤ room ls

pub pointer-IsWritten :
    (c : List ℕ) (added : Offsets) (l : List ℕ) (ls : List (List ℕ)) (offset next : ℕ)
    → offset < 2 ^ 14
    → offset < length c
    → Reads c offset (l ∷ ls) next
    → IsWritten c added (l ∷ ls) (written (c ++ u16_to_be_bytes (bit_or offset 0xc000)) added)
unfolding u16_to_be_bytes
pointer-IsWritten c added l ls offset next small before r =
    let sum = bit_or-pointer offset small in
    let n = bit_or offset 0xc000 in
    let bytes = u16_to_be_bytes n in
    record {
      bytes = bytes;
      new = [];
      outcome = refl;
      reads =
          subst (λ x. Reads (c ++ bytes) (length c) (l ∷ ls) x) (sym (length-append c bytes))
            (pointer (length c) next offset (n / 256 % 256) (n % 256) (l ∷ ls)
              ([], drop-append (length c) c bytes refl)
              (u16_bytes n (omega (arith, sum, small)) ∙ sum) small before (Reads-append bytes r));
      known = tt;
      short = omega arith;
    }

pub root-IsWritten :
    (c : List ℕ) (added : Offsets) → IsWritten c added [] (written (c ++ 0 ∷ []) added)
root-IsWritten c added = record {
  bytes = 0 ∷ [];
  new = [];
  outcome = refl;
  reads =
      subst (λ x. Reads (c ++ 0 ∷ []) (length c) [] x) (sym (length-append c (0 ∷ [])))
        (root (length c) ([], drop-append (length c) c (0 ∷ []) refl));
  known = tt;
  short = omega arith;
}

-- A label at the end of `c`, and the rest of its name behind it.
written_label-Reads :
    (c l more : List ℕ) (ls : List (List ℕ)) (next : ℕ)
    → IsLabel l
    → Reads (c ++ (part_bytes l ++ more)) (length c + suc (length l)) ls next
    → Reads (c ++ (part_bytes l ++ more)) (length c) (l ∷ ls) next
written_label-Reads c l more ls next v r =
    label (length c) next l ls v.0 v.1 (more, drop-append (length c) c (part_bytes l ++ more) refl)
      r

pub last-IsWritten :
    (c : List ℕ) (added : Offsets) (l : List ℕ)
    → IsLabel l
    → IsWritten c added
        (l ∷ [])
        (written (c ++ (part_bytes l ++ 0 ∷ [])) ((name_text (l ∷ []), length c) ∷ added))
last-IsWritten c added l v =
    let bytes = part_bytes l ++ 0 ∷ [] in
    let size = length-append c bytes in
    let size' = length-append l (0 ∷ []) in
    let behind : At (c ++ bytes) (length c + suc (length l)) (0 ∷ []) = (
      [],
      drop_past (length c) (suc (length l)) c bytes refl ∙ drop-append (length l) l (0 ∷ []) refl,
    ) in
    let reads =
      subst (λ x. Reads (c ++ bytes) (length c) (l ∷ []) x) {x = length c + suc (length l) + 1}
        {y = length (c ++ bytes)} (omega (arith, size, size'))
        (written_label-Reads c l (0 ∷ []) [] _ v (root (length c + suc (length l)) behind)) in
    record {
      bytes = bytes;
      new = (name_text (l ∷ []), length c) ∷ [];
      outcome = refl;
      reads = reads;
      known = (
        record {
          first = l;
          others = [];
          valid = (v, tt);
          text_is = refl;
          inside = omega (arith, size);
          next = length (c ++ bytes);
          reads = reads;
        },
        tt,
      );
      short = omega (arith, size', ap length (name_text-one l));
    }

pub label-IsWritten :
    (c : List ℕ) (added : Offsets) (l m : List ℕ) (ms : List (List ℕ)) (out : Outcome)
    → All IsLabel (l ∷ m ∷ ms)
    → IsWritten (c ++ part_bytes l) ((name_text (l ∷ m ∷ ms), length c) ∷ added) (m ∷ ms) out
    → IsWritten c added (l ∷ m ∷ ms) out
label-IsWritten c added l m ms out v w =
    let bytes = part_bytes l ++ w.bytes in
    let same : (c ++ part_bytes l) ++ w.bytes ≡ c ++ bytes =
      append_assoc c (part_bytes l) w.bytes in
    let start : length (c ++ part_bytes l) ≡ length c + suc (length l) =
      length-append c (part_bytes l) in
    let entry : List ℕ × ℕ = (name_text (l ∷ m ∷ ms), length c) in
    let behind : Reads (c ++ bytes) (length c + suc (length l)) (m ∷ ms) (length (c ++ bytes)) =
      subst (λ x. Reads (c ++ bytes) x (m ∷ ms) (length (c ++ bytes))) start
        (subst (λ b. Reads b (length (c ++ part_bytes l)) (m ∷ ms) (length b)) same w.reads) in
    let reads = written_label-Reads c l w.bytes (m ∷ ms) (length (c ++ bytes)) v.0 behind in
    let size = length-append c bytes in
    let size' = length-append l w.bytes in
    record {
      bytes = bytes;
      new = w.new ++ entry ∷ [];
      outcome =
          w.outcome
          ∙ (ap (λ b. written b (w.new ++ entry ∷ added)) same
              ∙ ap (λ a. written (c ++ bytes) a) (sym (append_assoc w.new (entry ∷ []) added)));
      reads = reads;
      known =
          All-append (IsEntryOf (c ++ bytes)) w.new (entry ∷ [])
            (subst (λ b. All (IsEntryOf b) w.new) same w.known)
            (
              record {
                first = l;
                others = m ∷ ms;
                valid = v;
                text_is = refl;
                inside = omega (arith, size);
                next = length (c ++ bytes);
                reads = reads;
              },
              tt,
            );
      short = omega (
        arith,
        size',
        w.short,
        ap length (name_text-cons l m ms),
        length-append l (b'.' ∷ name_text (m ∷ ms)),
      );
    }
