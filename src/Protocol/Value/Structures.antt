-- ===== src/Protocol/Value/Structures.antt =====
-- The texts, addresses, message types and domain names keep the laws of `IsCodec`.
use rsdhcp.Prelude.{
  All, All-append, List, [], ap, arith, get_or, length, refl, true, ℕ, ◌%◌, ◌<◌, ◌∷◌, ◌≡◌, ◌≤◌,
}
use rsdhcp.Protocol.Bytes.{
  IsByte, IsU32, u32_bytes, u32_from_be_bytes-lt, u32_to_be_bytes, u32_to_be_bytes-IsByte,
}
use rsdhcp.Protocol.Enums.{MessageType, discover, message_code, message_from}
use rsdhcp.Protocol.Errors.{ok}
use rsdhcp.Protocol.Value.{
  ClientFqdn, Ipv4Addr, client_fqdn_from_network, client_fqdn_serde, client_fqdn_to_network,
  ip_chunks, ip_list_from_network, ip_list_serde, ip_list_to_network, ip_mask_list_from_network,
  ip_mask_list_serde, ip_mask_list_to_network, ip_mask_loop, ipv4_from_network, ipv4_serde,
  ipv4_to_network, is_ascii, known, message_type_from_network, message_type_serde,
  message_type_to_network, string_from_network, string_serde, string_to_network, trim_end,
}
use rsdhcp.Protocol.Value.Laws.{IsCodec, IsFqdn, IsIpPair, IsKnown, IsText}

is_ascii-text : (s : List ℕ) → All (λ b. b < 128) s → is_ascii s ≡ true
unfolding is_ascii
is_ascii-text [] h = refl
is_ascii-text (b ∷ bs) h = ground (arith, is_ascii-text bs h.1)

is_ascii-trim : (s : List ℕ) → is_ascii s ≡ true → All (λ b. b < 128) (trim_end s)
unfolding is_ascii trim_end
is_ascii-trim [] h = tt
is_ascii-trim (b ∷ bs) h = ground (arith, is_ascii-trim bs)

trim_end-trim_end : (s : List ℕ) → trim_end (trim_end s) ≡ trim_end s
unfolding trim_end
trim_end-trim_end [] = refl
trim_end-trim_end (b ∷ bs) = ground (arith, trim_end-trim_end bs)

trim_end-length : (s : List ℕ) → length (trim_end s) ≤ length s
unfolding trim_end
trim_end-length [] = omega arith
trim_end-length (b ∷ bs) = ground (arith, trim_end-length bs)

text-IsByte : (s : List ℕ) → All (λ b. b < 128) s → All IsByte s
text-IsByte [] h = tt
text-IsByte (b ∷ bs) h = (omega arith, text-IsByte bs h.1)

pub string_codec : IsCodec string_serde IsText
unfolding string_from_network string_to_network
string_codec = record {
  decode-encode = λ a h. rw (is_ascii-text a h.0, h.1);
  decode-Valid = λ bytes a h e. ground (arith, is_ascii-trim bytes, trim_end-trim_end bytes);
  encode-IsByte = λ a h. text-IsByte a h.0;
  encode-length = λ bytes a e. ground (arith, trim_end-length bytes);
}

ipv4_decode-Valid :
    (bytes : List ℕ) (a : ℕ) → All IsByte bytes → ipv4_from_network bytes ≡ ok a → IsU32 a
unfolding ipv4_from_network
ipv4_decode-Valid (x ∷ y ∷ z ∷ w ∷ []) a h e = ground (arith, u32_from_be_bytes-lt x y z w)
ipv4_decode-Valid _ a h e = cc

ipv4_encode-length :
    (bytes : List ℕ) (a : ℕ)
    → ipv4_from_network bytes ≡ ok a
    → length (ipv4_to_network a) ≤ length bytes
unfolding ipv4_from_network ipv4_to_network u32_to_be_bytes
ipv4_encode-length (x ∷ y ∷ z ∷ w ∷ []) a e = omega arith
ipv4_encode-length _ a e = cc

pub ipv4_codec : IsCodec ipv4_serde IsU32
unfolding ipv4_to_network
ipv4_codec = record {
  decode-encode = λ a h. unfold ipv4_from_network u32_to_be_bytes in ap ok (u32_bytes a h);
  decode-Valid = ipv4_decode-Valid;
  encode-IsByte = λ a h. u32_to_be_bytes-IsByte a;
  encode-length = ipv4_encode-length;
}

ip_chunks-encode : (ips : List Ipv4Addr) → All IsU32 ips → ip_chunks (ip_list_to_network ips) ≡ ips
unfolding ip_chunks ip_list_to_network u32_to_be_bytes
ip_chunks-encode [] h = refl
ip_chunks-encode (ip ∷ ips) h = rw (u32_bytes ip h.0, ip_chunks-encode ips h.1)

ip_list-multiple : (ips : List Ipv4Addr) → length (ip_list_to_network ips) % 4 ≡ 0
unfolding ip_list_to_network u32_to_be_bytes
ip_list-multiple [] = refl
ip_list-multiple (ip ∷ ips) = omega (arith, ip_list-multiple ips)

ip_chunks-Valid : (bs : List ℕ) → All IsByte bs → All IsU32 (ip_chunks bs)
unfolding ip_chunks
ip_chunks-Valid (a ∷ b ∷ c ∷ d ∷ rest) (ha, (hb, (hc, (hd, hr)))) =
    (u32_from_be_bytes-lt a b c d ha hb hc hd, ip_chunks-Valid rest hr)
ip_chunks-Valid _ h = tt

ip_chunks-length : (bs : List ℕ) → length (ip_list_to_network (ip_chunks bs)) ≤ length bs
unfolding ip_chunks ip_list_to_network u32_to_be_bytes
ip_chunks-length (a ∷ b ∷ c ∷ d ∷ rest) = omega (arith, ip_chunks-length rest)
ip_chunks-length _ = omega arith

ip_list_to_network-IsByte : (ips : List Ipv4Addr) → All IsByte (ip_list_to_network ips)
unfolding ip_list_to_network
ip_list_to_network-IsByte [] = tt
ip_list_to_network-IsByte (n ∷ ns) =
    All-append IsByte (u32_to_be_bytes n) _ (u32_to_be_bytes-IsByte n)
      (ip_list_to_network-IsByte ns)

pub ip_list_codec : IsCodec ip_list_serde (All IsU32)
unfolding ip_list_from_network
ip_list_codec = record {
  decode-encode = λ a h. rw (ip_list-multiple a, ip_chunks-encode a h);
  decode-Valid = λ bytes a h e. ground (arith, ip_chunks-Valid bytes h);
  encode-IsByte = λ a h. ip_list_to_network-IsByte a;
  encode-length = λ bytes a e. ground (arith, ip_chunks-length bytes);
}

ip_mask_loop-encode :
    (ps : List (Ipv4Addr × Ipv4Addr))
    → All IsIpPair ps
    → ip_mask_loop (ip_mask_list_to_network ps) ≡ ps
unfolding ip_mask_loop ip_mask_list_to_network u32_to_be_bytes
ip_mask_loop-encode [] h = refl
ip_mask_loop-encode ((addr, mask) ∷ ps) h =
    rw (u32_bytes addr h.0.0, u32_bytes mask h.0.1, ip_mask_loop-encode ps h.1)

ip_mask_list-multiple :
    (ps : List (Ipv4Addr × Ipv4Addr)) → length (ip_mask_list_to_network ps) % 8 ≡ 0
unfolding ip_mask_list_to_network u32_to_be_bytes
ip_mask_list-multiple [] = refl
ip_mask_list-multiple ((addr, mask) ∷ ps) = omega (arith, ip_mask_list-multiple ps)

ip_mask_loop-Valid : (bs : List ℕ) → All IsByte bs → All IsIpPair (ip_mask_loop bs)
unfolding ip_mask_loop
ip_mask_loop-Valid (a ∷ b ∷ c ∷ d ∷ e ∷ f ∷ g ∷ k ∷ rest)
      (ha, (hb, (hc, (hd, (he, (hf, (hg, (hk, hr)))))))) =
    (
      (u32_from_be_bytes-lt a b c d ha hb hc hd, u32_from_be_bytes-lt e f g k he hf hg hk),
      ip_mask_loop-Valid rest hr,
    )
ip_mask_loop-Valid _ h = tt

ip_mask_loop-length : (bs : List ℕ) → length (ip_mask_list_to_network (ip_mask_loop bs)) ≤ length bs
unfolding ip_mask_loop ip_mask_list_to_network u32_to_be_bytes
ip_mask_loop-length (a ∷ b ∷ c ∷ d ∷ e ∷ f ∷ g ∷ k ∷ rest) = omega (arith, ip_mask_loop-length rest)
ip_mask_loop-length _ = omega arith

ip_mask_list_to_network-IsByte :
    (ps : List (Ipv4Addr × Ipv4Addr)) → All IsByte (ip_mask_list_to_network ps)
unfolding ip_mask_list_to_network
ip_mask_list_to_network-IsByte [] = tt
ip_mask_list_to_network-IsByte ((addr, mask) ∷ ps) =
    All-append IsByte (u32_to_be_bytes addr) _ (u32_to_be_bytes-IsByte addr) (
      All-append IsByte (u32_to_be_bytes mask) _ (u32_to_be_bytes-IsByte mask)
        (ip_mask_list_to_network-IsByte ps))

pub ip_mask_list_codec : IsCodec ip_mask_list_serde (All IsIpPair)
unfolding ip_mask_list_from_network
ip_mask_list_codec = record {
  decode-encode = λ a h. rw (ip_mask_list-multiple a, ip_mask_loop-encode a h);
  decode-Valid = λ bytes a h e. ground (arith, ip_mask_loop-Valid bytes h);
  encode-IsByte = λ a h. ip_mask_list_to_network-IsByte a;
  encode-length = λ bytes a e. ground (arith, ip_mask_loop-length bytes);
}

-- A known message type is told by its number, which is a byte.
pub message_from-message_code :
    (mt : MessageType) → IsKnown mt → known (message_from (message_code mt)) ≡ ok mt
unfolding message_from message_code
message_from-message_code (MessageType.unknown v) h = absurd h
message_from-message_code _ h = refl

message_code-IsByte : (mt : MessageType) → IsKnown mt → IsByte (message_code mt)
unfolding message_code
message_code-IsByte (MessageType.unknown v) h = absurd h
message_code-IsByte _ h = omega arith

known-IsKnown : (mt a : MessageType) → known mt ≡ ok a → IsKnown a
known-IsKnown (MessageType.unknown v) a e = cc
known-IsKnown discover a e = ground arith
known-IsKnown _ a e = ground arith

pub message_type_codec : IsCodec message_type_serde IsKnown
unfolding message_type_from_network message_type_to_network
message_type_codec = record {
  decode-encode = message_from-message_code;
  decode-Valid = λ bytes a h e. ground (arith, known-IsKnown (message_from (get_or bytes 0 0)) a);
  encode-IsByte = λ a h. (message_code-IsByte a h, tt);
  encode-length = λ bytes a e. ground arith;
}

client_fqdn_decode-Valid :
    (bytes : List ℕ) (a : ClientFqdn)
    → All IsByte bytes
    → client_fqdn_from_network bytes ≡ ok a
    → IsFqdn a
unfolding client_fqdn_from_network
client_fqdn_decode-Valid (x ∷ y ∷ z ∷ w ∷ rest) a h e = ground arith
client_fqdn_decode-Valid _ a h e = ground arith

client_fqdn_encode-length :
    (bytes : List ℕ) (a : ClientFqdn)
    → client_fqdn_from_network bytes ≡ ok a
    → length (client_fqdn_to_network a) ≤ length bytes
unfolding client_fqdn_from_network client_fqdn_to_network
client_fqdn_encode-length (x ∷ y ∷ z ∷ w ∷ rest) a e = ground arith
client_fqdn_encode-length _ a e = ground arith

pub client_name_codec : IsCodec client_fqdn_serde IsFqdn
unfolding client_fqdn_to_network
client_name_codec = record {
  decode-encode = λ a h. unfold client_fqdn_from_network in ground arith;
  decode-Valid = client_fqdn_decode-Valid;
  encode-IsByte = λ a h. (h.0, (omega arith, (omega arith, h.2)));
  encode-length = client_fqdn_encode-length;
}
