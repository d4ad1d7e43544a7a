-- ===== src/Wire/Defs.antt =====
-- Errors, results and the interface of the primitives that the encoding calls.
use mpc_sdk_framework.Prelude.{ℕ, Bool, Option, none, some}
use mpc_sdk_framework.Messages.{Bytes}

-- protocol/src/error.rs, and what `encoding_error` wraps. `io` stands for every error of the
-- primitives, `conversion` for a failed `try_into`.
pub data Error : Type 0 where
  max_buffer_size : ℕ → Error
  bad_encoding_identity : Error
  encoding_version : ℕ → ℕ → Error
  encoding_kind : ℕ → Error
  pattern_mismatch : Bytes → Error
  bad_keypair_pem not_transport_state io conversion snow pem : Error

-- `panic` is an `unwrap` or a slice that fails, an `unreachable!()`.
pub data Result {ℓ} (A : Type ℓ) : Type ℓ where
  ok : A → Result A
  err : Error → Result A
  panic : Result A

abbrev pub ok_or {ℓ} : {A : Type ℓ} → Option A → Error → Result A
ok_or none e = err e
ok_or (some a) e = ok a

-- The calls that the encoding makes of `binary_stream`, with the options that `encoding_options`
-- builds, and of `http::StatusCode`. `none` is an `io::Error`. A write gives the bytes that it adds,
-- a read the value and what it leaves of the input.
pub record BinaryStream : Type 0 where
  pub u8_write : ℕ → Option Bytes
  pub u16_write : ℕ → Option Bytes
  pub u32_write : ℕ → Option Bytes
  pub bool_write : Bool → Option Bytes
  pub bytes_write : Bytes → Option Bytes
  pub string_write : Bytes → Option Bytes
  pub u8_read : Bytes → Option (ℕ × Bytes)
  pub u16_read : Bytes → Option (ℕ × Bytes)
  pub u32_read : Bytes → Option (ℕ × Bytes)
  pub bool_read : Bytes → Option (Bool × Bytes)
  pub bytes_read : ℕ → Bytes → Option (Bytes × Bytes)
  pub string_read : Bytes → Option (Bytes × Bytes)
  pub is_utf8 : Bytes → Bool
  pub is_status_code : ℕ → Bool
