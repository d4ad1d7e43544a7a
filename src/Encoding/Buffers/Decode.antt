-- ===== src/Encoding/Buffers/Decode.antt =====
-- Reading a buffer, an encrypted payload and the preamble: protocol/src/encoding/v1/mod.rs and
-- protocol/src/encoding/mod.rs.
use mpc_sdk_framework.Prelude.{ℕ, ◌==◌, nat_eq, list_eq, length, if◌then◌else◌}
use mpc_sdk_framework.Types
use mpc_sdk_framework.Messages.{Bytes}
use mpc_sdk_framework.Wire.{bad_encoding_identity, encoding_version, BinaryStream}
use mpc_sdk_framework.Wire.Reader.{Reader, ◌>>=◌, ◌>>◌, pure, fail, read_u16, read_bytes}

-- The test of `decode_preamble` on the identity, then on the version.
unfoldable pub check_identity : Bytes → Reader (Unit {0})
check_identity identity = if identity == Types.identity then pure tt else fail bad_encoding_identity

unfoldable pub check_version : ℕ → Reader (Unit {0})
check_version version =
    if version == Types.version then pure tt else fail (encoding_version Types.version version)

module _ ⦃bin : BinaryStream⦄ where
  unfoldable pub decode_buffer : Reader Bytes
  decode_buffer = do size ← read_u16; read_bytes size

  unfoldable pub decode_payload : Reader (ℕ × Bytes)
  decode_payload = do len ← read_u16; buffer ← decode_buffer; pure (len, buffer)

  unfoldable pub decode_preamble : Reader (Unit {0})
  decode_preamble = do
    identity ← read_bytes (length Types.identity)
    check_identity identity
    version ← read_u16
    check_version version
