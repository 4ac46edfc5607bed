-- ===== src/Protocol/Fqdn.antt =====
-- `Display` of ClientFqdn (rsdhcp/src/protocol/option.rs): a domain name as text. The standard
-- library's test for UTF-8 is a parameter; a text is the list of its bytes.
pub mod Shown
use rsdhcp.Prelude.{
  Bool, List, Option, [], drop, false, if◌then◌else◌, leb, length, none, some, suc, take, true,
  zero, ℕ, ◌++◌, ◌+◌, ◌<◌, ◌==◌, ◌∷◌, ◌≡◌,
}
use rsdhcp.Protocol.Value.{ClientFqdn}
use Prim.Native.Nat.{bit_and}

-- `get(offset..part_end)`, with the length of the range.
unfoldable pub get_range : ℕ → ℕ → List ℕ → Option (List ℕ)
get_range offset part_len bytes =
    if leb (offset + part_len) (length bytes)
    then some (take part_len (drop offset bytes))
    else none

-- `get(offset)`
unfoldable pub get_byte : ℕ → List ℕ → Option ℕ
get_byte offset [] = none
get_byte zero (b ∷ bytes) = some b
get_byte (suc offset) (b ∷ bytes) = get_byte offset bytes

module _ (is_utf8 : List ℕ → Bool) where
  -- The `while let` loop from an offset on, on fuel for the parts; `none` is the end of the fuel.
  unfoldable pub wire_parts : ℕ → ℕ → List ℕ → List ℕ → Option (List ℕ)
  unfolding get_byte get_range
  wire_parts zero offset bytes out = none
  wire_parts (suc fuel) offset bytes out = elim (get_byte offset bytes) [
    | none ↦ some out
    | some part_len ↦
        if part_len == 0 then some out else elim (get_range (offset + 1) part_len bytes) [
          | none ↦ some out
          | some part ↦
              if is_utf8 part
              then wire_parts fuel (offset + 1 + part_len) bytes (out ++ (part ++ b'.' ∷ []))
              else some out
        ]
  ]

  -- Flag 4 marks the wire format.
  unfoldable pub display : ClientFqdn → Option (List ℕ)
  unfolding wire_parts
  display fqdn =
      if bit_and fqdn.flags 4 == 4
      then wire_parts (suc (length fqdn.domain_name)) 0 fqdn.domain_name []
      else some (if is_utf8 fqdn.domain_name then fqdn.domain_name else [])

  -- The text of a name in wire format: its parts up to the root, or up to one that is cut off or is
  -- no text.
  pub data Shows : List ℕ → List ℕ → Type 0 where
    nothing : Shows [] []
    root : (rest : List ℕ) → Shows (0 ∷ rest) []
    cut_off : (n : ℕ) (rest : List ℕ) → 0 < n → length rest < n → Shows (n ∷ rest) []
    no_text :
        (part rest : List ℕ)
        → 0 < length part
        → is_utf8 part ≡ false
        → Shows (length part ∷ part ++ rest) []
    shown :
        (part rest text : List ℕ)
        → 0 < length part
        → is_utf8 part ≡ true
        → Shows rest text
        → Shows (length part ∷ part ++ rest) (part ++ b'.' ∷ text)
