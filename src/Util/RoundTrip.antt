-- ===== src/Util/RoundTrip.antt =====
-- The compressed list of names is read as the list that was given.
use rsdhcp.Prelude.{
  All, All-append, List, Option, [], ap, append-nil, append_assoc, arith, length, length-append,
  map, some, subst, sym, ℕ, ◌++◌, ◌+◌, ◌^◌, ◌∙◌, ◌∷◌, ◌≡◌, ◌≤◌,
}
use rsdhcp.Util.{Offsets, domain_name_list_compression, names_loop}
use rsdhcp.Util.Compression.{any_name-IsWritten}
use rsdhcp.Util.Known.{IsEntryOf, all_known-append, room_all}
use rsdhcp.Util.Names.{IsLabel, name_text}
use rsdhcp.Util.Reading.{Reads-append, ReadsAll, name_then, no_names}

-- What the loop over the names leaves, from bytes `c` on.
record IsRead (c : List ℕ) (names : List (List (List ℕ))) (out : Option (List ℕ)) : Type 0 where
  bytes : List ℕ
  outcome : out ≡ some (c ++ bytes)
  reads : ReadsAll (c ++ bytes) (length c) names (length (c ++ bytes))

names_loop-IsRead :
    (names : List (List (List ℕ))) (known : Offsets) (c : List ℕ)
    → All (All IsLabel) names
    → All (IsEntryOf c) known
    → length c + room_all names ≤ 2 ^ 14
    → IsRead c names (names_loop (map name_text names) known c)
unfolding names_loop
names_loop-IsRead [] known c v k small = record {
  bytes = [];
  outcome = ap some (sym (append-nil c));
  reads =
      subst (λ x. ReadsAll (c ++ []) (length c) [] x) (ap length (sym (append-nil c)))
        (no_names (length c));
}
names_loop-IsRead (ls ∷ names) known c v k small =
    let w = any_name-IsWritten known ls c v.0 k (omega arith) in
    let c' = c ++ w.bytes in
    let r =
      names_loop-IsRead names ((w.new ++ []) ++ known) c' v.1
        (All-append (IsEntryOf c') (w.new ++ []) known
          (All-append (IsEntryOf c') w.new [] w.known tt) (all_known-append w.bytes c known k))
        (omega (arith, small, w.short, length-append c w.bytes)) in
    let same : c' ++ r.bytes ≡ c ++ (w.bytes ++ r.bytes) = append_assoc c w.bytes r.bytes in
    record {
      bytes = w.bytes ++ r.bytes;
      outcome = rw (names_loop, w.outcome) (r.outcome ∙ ap some same);
      reads =
          subst (λ b. ReadsAll b (length c) (ls ∷ names) (length b)) same
            (name_then (length c) (length c') (length (c' ++ r.bytes)) ls names
              (Reads-append r.bytes w.reads) r.reads);
    }

-- Names whose labels have between one and 63 bytes and no dot, and whose texts, with two bytes for
-- each, fit into the 14 bits of a pointer, are compressed; and a reader of the bytes gets the names back,
-- in order and to the last byte.
pub domain_name_list_compression-ReadsAll :
    (names : List (List (List ℕ)))
    → All (All IsLabel) names
    → room_all names ≤ 2 ^ 14
    → (bytes : List ℕ) × (domain_name_list_compression (map name_text names) ≡ some bytes)
      × ReadsAll bytes 0 names (length bytes)
unfolding domain_name_list_compression
domain_name_list_compression-ReadsAll names v small =
    let r = names_loop-IsRead names [] [] v tt (omega arith) in (r.bytes, r.outcome, r.reads)
