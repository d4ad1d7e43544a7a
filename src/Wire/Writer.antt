-- ===== src/Wire/Writer.antt =====
-- A `BinaryWriter`: the bytes written, or the error that stops the writing.
use mpc_sdk_framework.Prelude.{ℕ, Bool, List, [], ◌∷◌, ◌++◌}
use mpc_sdk_framework.Messages.{Bytes}
use mpc_sdk_framework.Wire.Defs.{Error, Result, ok, err, panic, ok_or, BinaryStream}

abbrev pub Writer : Type 0
Writer = Result Bytes

-- Before the rest of the writing.
unfoldable pub prepend : Bytes → Writer → Writer
prepend bs (ok rest) = ok (bs ++ rest)
prepend bs (err e) = err e
prepend bs panic = panic

infixl 5 ◌>>◌
unfoldable pub ◌>>◌ : Writer → Writer → Writer
unfolding prepend
ok bs >> w = prepend bs w
err e >> w = err e
panic >> w = panic

unfoldable pub write_each {ℓ} : {A : Type ℓ} → (A → Writer) → List A → Writer
unfolding ◌>>◌
write_each f [] = ok []
write_each f (x ∷ xs) = f x >> write_each f xs

module _ ⦃bin : BinaryStream⦄ where
  unfoldable pub write_u8 : ℕ → Writer
  write_u8 n = ok_or (bin.u8_write n) Error.io

  unfoldable pub write_u16 : ℕ → Writer
  write_u16 n = ok_or (bin.u16_write n) Error.io

  unfoldable pub write_u32 : ℕ → Writer
  write_u32 n = ok_or (bin.u32_write n) Error.io

  unfoldable pub write_bool : Bool → Writer
  write_bool b = ok_or (bin.bool_write b) Error.io

  unfoldable pub write_bytes : Bytes → Writer
  write_bytes bs = ok_or (bin.bytes_write bs) Error.io

  unfoldable pub write_string : Bytes → Writer
  write_string s = ok_or (bin.string_write s) Error.io
