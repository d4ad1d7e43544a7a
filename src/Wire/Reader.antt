-- ===== src/Wire/Reader.antt =====
-- A `BinaryReader`: from the input that is left to a value and what is left behind it.
use mpc_sdk_framework.Prelude.{ℕ, zero, suc, Bool, List, [], ◌∷◌, length, nat_beq, if◌then◌else◌}
use mpc_sdk_framework.Messages.{Bytes}
use mpc_sdk_framework.Wire.Defs.{Error, Result, ok, err, panic, ok_or, conversion, BinaryStream}

abbrev pub Reader {ℓ} : Type ℓ → Type ℓ
Reader A = Bytes → Result (A × Bytes)

module _ {ℓ κ} {A : Type ℓ} {B : Type κ} where
  unfoldable pub and_then : Result (A × Bytes) → (A → Reader B) → Result (B × Bytes)
  and_then (ok (a, rest)) k = k a rest
  and_then (err e) k = err e
  and_then panic k = panic

  infixl 5 ◌>>=◌ ◌>>◌
  unfoldable pub ◌>>=◌ : Reader A → (A → Reader B) → Reader B
  unfolding and_then
  ◌>>=◌ r k input = and_then (r input) k

  unfoldable pub ◌>>◌ : Reader A → Reader B → Reader B
  unfolding ◌>>=◌
  ◌>>◌ r s = r >>= λ _. s

unfoldable pub pure {ℓ} : {A : Type ℓ} → A → Reader A
pure a input = ok (a, input)

unfoldable pub fail {ℓ} : {A : Type ℓ} → Error → Reader A
fail e input = err e

-- `for _ in 0..n` with a push.
unfoldable pub read_each {ℓ} : {A : Type ℓ} → ℕ → Reader A → Reader (List A)
unfolding ◌>>=◌ pure
read_each zero r = pure []
read_each (suc n) r = do x ← r; xs ← read_each n r; pure (x ∷ xs)

-- `try_into().unwrap()` of a vector into an array of `n` bytes.
unfoldable pub into_array : ℕ → Bytes → Reader Bytes
into_array n bs input = if nat_beq (length bs) n then ok (bs, input) else panic

-- `try_into().map_err(encoding_error)?` of a slice into an array of `n` bytes.
unfoldable pub try_into_array : ℕ → Bytes → Reader Bytes
try_into_array n bs input = if nat_beq (length bs) n then ok (bs, input) else err conversion

module _ ⦃bin : BinaryStream⦄ where
  unfoldable pub read_u8 : Reader ℕ
  read_u8 input = ok_or (bin.u8_read input) Error.io

  unfoldable pub read_u16 : Reader ℕ
  read_u16 input = ok_or (bin.u16_read input) Error.io

  unfoldable pub read_u32 : Reader ℕ
  read_u32 input = ok_or (bin.u32_read input) Error.io

  unfoldable pub read_bool : Reader Bool
  read_bool input = ok_or (bin.bool_read input) Error.io

  unfoldable pub read_bytes : ℕ → Reader Bytes
  read_bytes n input = ok_or (bin.bytes_read n input) Error.io

  unfoldable pub read_string : Reader Bytes
  read_string input = ok_or (bin.string_read input) Error.io

  -- `try_into().map_err(encoding_error)?` of a number into a status code.
  unfoldable pub try_into_status : ℕ → Reader ℕ
  try_into_status code input = if bin.is_status_code code then ok (code, input) else err conversion
