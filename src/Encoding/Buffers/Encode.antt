-- ===== src/Encoding/Buffers/Encode.antt =====
-- Writing a buffer, an encrypted payload and the preamble: protocol/src/encoding/v1/mod.rs and
-- protocol/src/encoding/mod.rs.
use mpc_sdk_framework.Prelude.{ℕ, ◌%◌, ◌^◌, length, ltb, if◌then◌else◌}
use mpc_sdk_framework.Types
use mpc_sdk_framework.Messages.{Bytes}
use mpc_sdk_framework.Wire.{err, max_buffer_size, BinaryStream}
use mpc_sdk_framework.Wire.Writer.{Writer, ◌>>◌, write_u16, write_bytes}

module _ ⦃bin : BinaryStream⦄ where
  unfoldable pub encode_buffer : Bytes → Writer
  encode_buffer buffer =
      if ltb Types.max_buffer_size (length buffer)
      then err (max_buffer_size Types.max_buffer_size)
      else (write_u16 (length buffer % 2 ^ 16) >> write_bytes buffer)

  unfoldable pub encode_payload : ℕ → Bytes → Writer
  encode_payload len buffer =
      if ltb Types.max_buffer_size len
      then err (max_buffer_size Types.max_buffer_size)
      else (write_u16 (len % 2 ^ 16) >> encode_buffer buffer)

  unfoldable pub encode_preamble : Writer
  encode_preamble = write_bytes Types.identity >> write_u16 Types.version
