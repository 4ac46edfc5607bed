-- ===== src/Protocol/Errors.antt =====
-- rsdhcp/src/protocol/errors.rs: the errors of the protocol layer, and the `Result` that carries them.
use rsdhcp.Prelude.{refl, ℕ, ◌≡◌}

-- `PacketError` holds a message; here one constructor stands for each message of the source.
-- `io_error` is what `From<std::io::Error>` makes, and `try_from_slice` what
-- `From<TryFromSliceError>` makes. `out_of_fuel` is no error of the source: it marks a loop of the
-- model that ran out of rounds.
pub data PacketError : Type 0 where
  insufficient_bytes incorrect_cookie malformed_packet malformed_option : PacketError
  io_error try_from_slice out_of_fuel no_return_address : PacketError
  unknown_code invalid_message_type : ℕ → PacketError
  client_fqdn_length u8_length u16_length u16_list_length u32_length i32_length : PacketError
  ipv4_length ip_list_length ip_mask_list_length message_type_length invalid_ascii : PacketError

-- The two results, as in the source: the error is that of the protocol layer.
pub data Result {ℓ} (A : Type ℓ) : Type ℓ where
  err : PacketError → Result A
  ok : A → Result A

-- The `?` operator.
infixl 10 ◌>>=◌
abbrev pub ◌>>=◌ {ℓ κ} : {A : Type ℓ} {B : Type κ} → Result A → (A → Result B) → Result B
err why >>= next = err why
ok value >>= next = next value

-- Inversion of a bind that succeeded.
pub >>=-eq-ok {ℓ κ} :
    {A : Type ℓ} {B : Type κ} (first : Result A) (next : A → Result B) {answer : B}
    → (first >>= next) ≡ ok answer
    → (value : A) × (first ≡ ok value) × (next value ≡ ok answer)
>>=-eq-ok (err why) next e = cc
>>=-eq-ok (ok value) next e = (value, refl, e)

pub ok-injective {ℓ} : {A : Type ℓ} {a b : A} → ok a ≡ ok b → a ≡ b
ok-injective e = cc
