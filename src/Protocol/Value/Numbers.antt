-- ===== src/Protocol/Value/Numbers.antt =====
-- The integer implementations of `ValueSerde`, and the raw bytes, keep the laws of `IsCodec`.
use rsdhcp.Prelude.{All, All-append, List, [], ap, arith, length, refl, ℕ, ◌%◌, ◌∷◌, ◌≡◌, ◌≤◌}
use rsdhcp.Prelude.Int.{negsuc, pos, ℤ}
use rsdhcp.Protocol.Bytes.{
  IsByte, IsU16, IsU32, u16_bytes, u16_from_be_bytes-lt, u16_to_be_bytes, u16_to_be_bytes-IsByte,
  u32_bytes, u32_from_be_bytes-lt, u32_to_be_bytes, u32_to_be_bytes-IsByte,
}
use rsdhcp.Protocol.Errors.{ok}
use rsdhcp.Protocol.Value.{
  bytes_from_network, bytes_serde, bytes_to_network, i32_from_network, i32_of_u32, i32_serde,
  i32_to_network, u16_chunks, u16_from_network, u16_list_from_network, u16_list_serde,
  u16_list_to_network, u16_serde, u16_to_network, u32_from_network, u32_of_i32, u32_serde,
  u32_to_network, u8_from_network, u8_serde, u8_to_network,
}
use rsdhcp.Protocol.Value.Laws.{IsCodec, IsI32}

pub u8_codec : IsCodec u8_serde IsByte
unfolding u8_from_network u8_to_network
u8_codec = record {
  decode-encode = λ a h. refl;
  decode-Valid = λ bytes a hb e.
      elim bytes as (λ bs. All IsByte bs → u8_from_network bs ≡ ok a → IsByte a) [
        | [] ↦ λ _ e. ground arith
        | b ∷ bs ↦ λ hb e. ground arith
      ]
        hb e;
  encode-IsByte = λ a h. (h, tt);
  encode-length = λ bytes a e. ground arith;
}

pub bytes_codec : IsCodec bytes_serde (All IsByte)
unfolding bytes_from_network bytes_to_network
bytes_codec = record {
  decode-encode = λ a h. refl;
  decode-Valid = λ bytes a hb e. ground arith;
  encode-IsByte = λ a h. h;
  encode-length = λ bytes a e. ground arith;
}

short_decode-Valid :
    (bytes : List ℕ) (a : ℕ) → All IsByte bytes → u16_from_network bytes ≡ ok a → IsU16 a
unfolding u16_from_network
short_decode-Valid (x ∷ y ∷ []) a h e = ground (arith, u16_from_be_bytes-lt x y)
short_decode-Valid _ a h e = cc

u16_encode-length :
    (bytes : List ℕ) (a : ℕ)
    → u16_from_network bytes ≡ ok a
    → length (u16_to_network a) ≤ length bytes
unfolding u16_from_network u16_to_network u16_to_be_bytes
u16_encode-length (x ∷ y ∷ []) a e = omega arith
u16_encode-length _ a e = cc

pub short_codec : IsCodec u16_serde IsU16
short_codec = record {
  decode-encode =
      λ a h. unfold u16_from_network u16_to_network u16_to_be_bytes in ap ok (u16_bytes a h);
  decode-Valid = short_decode-Valid;
  encode-IsByte = λ a h. unfold u16_to_network in u16_to_be_bytes-IsByte a;
  encode-length = u16_encode-length;
}

word_decode-Valid :
    (bytes : List ℕ) (a : ℕ) → All IsByte bytes → u32_from_network bytes ≡ ok a → IsU32 a
unfolding u32_from_network
word_decode-Valid (x ∷ y ∷ z ∷ w ∷ []) a h e = ground (arith, u32_from_be_bytes-lt x y z w)
word_decode-Valid _ a h e = cc

u32_encode-length :
    (bytes : List ℕ) (a : ℕ)
    → u32_from_network bytes ≡ ok a
    → length (u32_to_network a) ≤ length bytes
unfolding u32_from_network u32_to_network u32_to_be_bytes
u32_encode-length (x ∷ y ∷ z ∷ w ∷ []) a e = omega arith
u32_encode-length _ a e = cc

pub word_codec : IsCodec u32_serde IsU32
word_codec = record {
  decode-encode =
      λ a h. unfold u32_from_network u32_to_network u32_to_be_bytes in ap ok (u32_bytes a h);
  decode-Valid = word_decode-Valid;
  encode-IsByte = λ a h. unfold u32_to_network in u32_to_be_bytes-IsByte a;
  encode-length = u32_encode-length;
}

-- The chunks of a list of encoded numbers are the numbers.
u16_chunks-encode : (ns : List ℕ) → All IsU16 ns → u16_chunks (u16_list_to_network ns) ≡ ns
unfolding u16_chunks u16_list_to_network u16_to_be_bytes
u16_chunks-encode [] h = refl
u16_chunks-encode (n ∷ ns) h = rw (u16_bytes n h.0, u16_chunks-encode ns h.1)

u16_list-even : (ns : List ℕ) → length (u16_list_to_network ns) % 2 ≡ 0
unfolding u16_list_to_network u16_to_be_bytes
u16_list-even [] = refl
u16_list-even (n ∷ ns) = omega (arith, u16_list-even ns)

u16_chunks-Valid : (bs : List ℕ) → All IsByte bs → All IsU16 (u16_chunks bs)
unfolding u16_chunks
u16_chunks-Valid (a ∷ b ∷ rest) h =
    (u16_from_be_bytes-lt a b h.0 h.1.0, u16_chunks-Valid rest h.1.1)
u16_chunks-Valid _ h = tt

u16_chunks-length : (bs : List ℕ) → length (u16_list_to_network (u16_chunks bs)) ≤ length bs
unfolding u16_chunks u16_list_to_network u16_to_be_bytes
u16_chunks-length (a ∷ b ∷ rest) = omega (arith, u16_chunks-length rest)
u16_chunks-length (a ∷ []) = omega arith
u16_chunks-length _ = omega arith

u16_list_to_network-IsByte : (ns : List ℕ) → All IsByte (u16_list_to_network ns)
unfolding u16_list_to_network
u16_list_to_network-IsByte [] = tt
u16_list_to_network-IsByte (n ∷ ns) =
    All-append IsByte (u16_to_be_bytes n) _ (u16_to_be_bytes-IsByte n)
      (u16_list_to_network-IsByte ns)

pub short_list_codec : IsCodec u16_list_serde (All IsU16)
unfolding u16_list_from_network
short_list_codec = record {
  decode-encode = λ a h. rw (u16_list-even a, u16_chunks-encode a h);
  decode-Valid = λ bytes a h e. ground (arith, u16_chunks-Valid bytes h);
  encode-IsByte = λ a h. u16_list_to_network-IsByte a;
  encode-length = λ bytes a e. ground (arith, u16_chunks-length bytes);
}

signed_decode-Valid :
    (bytes : List ℕ) (a : ℤ) → All IsByte bytes → i32_from_network bytes ≡ ok a → IsI32 a
unfolding i32_from_network i32_of_u32
signed_decode-Valid (x ∷ y ∷ z ∷ w ∷ []) a h e = ground (arith, u32_from_be_bytes-lt x y z w)
signed_decode-Valid _ a h e = cc

i32_encode-length :
    (bytes : List ℕ) (a : ℤ)
    → i32_from_network bytes ≡ ok a
    → length (i32_to_network a) ≤ length bytes
unfolding i32_from_network i32_to_network u32_to_be_bytes
i32_encode-length (x ∷ y ∷ z ∷ w ∷ []) a e = omega arith
i32_encode-length _ a e = cc

u32_of_i32-lt : (z : ℤ) → IsI32 z → IsU32 (u32_of_i32 z)
unfolding u32_of_i32
u32_of_i32-lt (pos n) h = omega arith
u32_of_i32-lt (negsuc n) h = omega arith

i32_of_u32-of : (z : ℤ) → IsI32 z → i32_of_u32 (u32_of_i32 z) ≡ z
unfolding i32_of_u32 u32_of_i32
i32_of_u32-of (pos n) h = ground arith
i32_of_u32-of (negsuc n) h = ground arith

pub signed_codec : IsCodec i32_serde IsI32
unfolding i32_from_network i32_to_network u32_to_be_bytes
signed_codec = record {
  decode-encode = λ a h. rw (u32_bytes (u32_of_i32 a) (u32_of_i32-lt a h), i32_of_u32-of a h);
  decode-Valid = signed_decode-Valid;
  encode-IsByte = λ a h. u32_to_be_bytes-IsByte (u32_of_i32 a);
  encode-length = i32_encode-length;
}
