-- ===== src/Util.antt =====
-- rsdhcp/src/util.rs: the compressed list of domain names of the domain search option.
-- A name is the bytes of its text.
pub mod Pointer
pub mod Names
pub mod Reading
pub mod Known
pub mod Written
pub mod Compression
pub mod RoundTrip
use rsdhcp.Prelude.{
  Bool, List, Option, [], false, if◌then◌else◌, length, ltb, none, some, suc, true, zero, ℕ, ◌&&◌,
  ◌++◌, ◌==◌, ◌^◌, ◌∷◌,
}
use rsdhcp.Protocol.Bytes.{u16_to_be_bytes}
use Prim.Native.Nat.{bit_or}

-- `name == ..`
unfoldable pub name_eq : List ℕ → List ℕ → Bool
name_eq [] [] = true
name_eq (x ∷ xs) (y ∷ ys) = x == y && name_eq xs ys
name_eq _ _ = false

-- `part_offsets`, newest entry first: `get` finds what was inserted last.
abbrev pub Offsets : Type 0
Offsets = List (List ℕ × ℕ)

unfoldable pub offset_of : List ℕ → Offsets → Option ℕ
unfolding name_eq
offset_of name [] = none
offset_of name ((n, offset) ∷ rest) = if name_eq n name then some offset else offset_of name rest

-- `split_once('.')`: what stands before the first dot, and behind it.
abbrev pub cons_part : ℕ → Option (List ℕ × List ℕ) → Option (List ℕ × List ℕ)
cons_part c none = none
cons_part c (some (part, rest)) = some (c ∷ part, rest)

unfoldable pub split_once : List ℕ → Option (List ℕ × List ℕ)
split_once [] = none
split_once (c ∷ cs) =
    let tail = cons_part c (split_once cs) in if c == b'.' then some ([], cs) else tail

-- What the inner loop leaves: the bytes so far and the offsets of the name's parts. `failed` is a
-- failed `expect`, and `out_of_rounds` no outcome of the source: the fuel of the model ran out.
pub data Outcome : Type 0 where
  written : List ℕ → Offsets → Outcome
  failed out_of_rounds : Outcome

-- The part's length byte and its bytes.
abbrev pub part_bytes : List ℕ → List ℕ
part_bytes part = length part ∷ part

-- The inner `loop`, on fuel for the parts of the name.
unfoldable pub name_loop : ℕ → Offsets → List ℕ → List ℕ → Offsets → Outcome
unfolding offset_of split_once name_eq
name_loop zero known name compressed added = out_of_rounds
name_loop (suc fuel) known name compressed added =
    if name_eq name (b'.' ∷ [])
    then written (compressed ++ 0 ∷ []) added
    else elim (offset_of name known) [
      | some offset ↦
          if ltb offset (2 ^ 16)
          then written (compressed ++ u16_to_be_bytes (bit_or offset 0xc000)) added
          else failed
      | none ↦ elim (split_once name) [
        | some (part, rest) ↦ elim (ltb (length part) 256) [
          | true ↦
              name_loop fuel known rest (compressed ++ part_bytes part)
                ((name, length compressed) ∷ added)
          | false ↦ failed
        ]
        | none ↦
            if ltb (length name) 256
            then written (compressed ++ (part_bytes name ++ 0 ∷ []))
                ((name, length compressed) ∷ added)
            else failed
      ]
    ]

-- The outer loop: the offsets of a name count for the names after it.
unfoldable pub names_loop : List (List ℕ) → Offsets → List ℕ → Option (List ℕ)
unfolding name_loop
names_loop [] known compressed = some compressed
names_loop (name ∷ names) known compressed =
    elim (name_loop (suc (length name)) known name compressed []) [
      | written compressed' added ↦ names_loop names (added ++ known) compressed'
      | _ ↦ none
    ]

-- `none` is a failed `expect`.
unfoldable pub domain_name_list_compression : List (List ℕ) → Option (List ℕ)
unfolding names_loop
domain_name_list_compression names = names_loop names [] []
