-- ===== src/Examples/Names.antt =====
-- The compression of domain names on the example of the source's test.
use rsdhcp.Examples.Setting.{clock, cursor, networks}
use rsdhcp.Prelude.{Bool, List, [], arith, length, refl, some, true, ℕ, ◌∷◌, ◌≡◌}
use rsdhcp.Protocol.Bytes.{u16_to_be_bytes}
use rsdhcp.Protocol.Fqdn.{Shows, display}
use rsdhcp.Protocol.Fqdn.Shown.{display-Shows}
use rsdhcp.Protocol.Value.{ClientFqdn}
use rsdhcp.Text.{join}
use rsdhcp.Util.{domain_name_list_compression}
use rsdhcp.Util.Reading.{ReadsAll}
use rsdhcp.Util.RoundTrip.{domain_name_list_compression-ReadsAll}

abbrev arpa : List ℕ
arpa = 65 ∷ 82 ∷ 80 ∷ 65 ∷ []

abbrev isi : List ℕ
isi = 70 ∷ 46 ∷ 73 ∷ 83 ∷ 73 ∷ 46 ∷ arpa

compression_test :
    domain_name_list_compression (isi ∷ (70 ∷ 79 ∷ 79 ∷ 46 ∷ isi) ∷ arpa ∷ (46 ∷ []) ∷ [])
    ≡ some (
        1 ∷ 70 ∷ 3 ∷ 73 ∷ 83 ∷ 73 ∷ 4 ∷ 65 ∷ 82 ∷ 80 ∷ 65 ∷ 0 ∷ 3 ∷ 70 ∷ 79 ∷ 79 ∷ 192 ∷ 0 ∷ 192 ∷ 6
        ∷ 0 ∷ [])
unfolding domain_name_list_compression u16_to_be_bytes
compression_test = refl

-- A dot at the end of a name costs a zero byte more: two names are read.
trailing_dot_test : domain_name_list_compression ((70 ∷ 46 ∷ []) ∷ []) ≡ some (1 ∷ 70 ∷ 0 ∷ 0 ∷ [])
unfolding domain_name_list_compression u16_to_be_bytes
trailing_dot_test = refl

abbrev isi_labels : List (List ℕ)
isi_labels = (70 ∷ []) ∷ (73 ∷ 83 ∷ 73 ∷ []) ∷ (65 ∷ 82 ∷ 80 ∷ 65 ∷ []) ∷ []

domain_name_list_compression-ReadsAll_example :
    (bytes : List ℕ) × (domain_name_list_compression (isi ∷ (70 ∷ 79 ∷ 79 ∷ 46 ∷ isi) ∷ [])
      ≡ some bytes)
    × ReadsAll bytes 0 (isi_labels ∷ ((70 ∷ 79 ∷ 79 ∷ []) ∷ isi_labels) ∷ []) (length bytes)
unfolding join
domain_name_list_compression-ReadsAll_example =
    domain_name_list_compression-ReadsAll (isi_labels ∷ ((70 ∷ 79 ∷ 79 ∷ []) ∷ isi_labels) ∷ [])
      (omega arith) (omega arith)

abbrev any_text : List ℕ → Bool
any_text bytes = true

abbrev wire_name : ClientFqdn
wire_name = record { flags = 5; domain_name = 1 ∷ b'a' ∷ 2 ∷ b'b' ∷ b'c' ∷ 0 ∷ [] }

displayed : display any_text wire_name ≡ some (b'a' ∷ b'.' ∷ b'b' ∷ b'c' ∷ b'.' ∷ [])
unfolding display
displayed = refl

display-Shows_example :
    (text : List ℕ) × (display any_text wire_name ≡ some text)
    × Shows any_text (1 ∷ b'a' ∷ 2 ∷ b'b' ∷ b'c' ∷ 0 ∷ []) text
display-Shows_example = display-Shows any_text wire_name refl
