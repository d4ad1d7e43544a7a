-- ===== src/Types.antt =====
-- The constants of the protocol crate: protocol/src/constants.rs and the kinds, the limit and the
-- identity of protocol/src/encoding/mod.rs.
use mpc_sdk_framework.Prelude.{ℕ, List, [], ◌∷◌}

-- The length of a noise tag.
abbrev pub taglen : ℕ
taglen = 16

abbrev pub max_buffer_size : ℕ
max_buffer_size = 65535

-- "Noise_NN_25519_ChaChaPoly_BLAKE2s".
abbrev pub pattern : List ℕ
pattern =
    78 ∷ 111 ∷ 105 ∷ 115 ∷ 101 ∷ 95 ∷ 78 ∷ 78 ∷ 95 ∷ 50 ∷ 53 ∷ 53 ∷ 49 ∷ 57 ∷ 95 ∷ 67 ∷ 104 ∷ 97
    ∷ 67 ∷ 104 ∷ 97 ∷ 80 ∷ 111 ∷ 108 ∷ 121 ∷ 95 ∷ 66 ∷ 76 ∷ 65 ∷ 75 ∷ 69 ∷ 50 ∷ 115 ∷ []

-- "NOISE PATTERN".
abbrev pub pem_pattern : List ℕ
pem_pattern = 78 ∷ 79 ∷ 73 ∷ 83 ∷ 69 ∷ 32 ∷ 80 ∷ 65 ∷ 84 ∷ 84 ∷ 69 ∷ 82 ∷ 78 ∷ []

-- "NOISE PRIVATE KEY".
abbrev pub pem_private : List ℕ
pem_private =
    78 ∷ 79 ∷ 73 ∷ 83 ∷ 69 ∷ 32 ∷ 80 ∷ 82 ∷ 73 ∷ 86 ∷ 65 ∷ 84 ∷ 69 ∷ 32 ∷ 75 ∷ 69 ∷ 89 ∷ []

-- "NOISE PUBLIC KEY".
abbrev pub pem_public : List ℕ
pem_public = 78 ∷ 79 ∷ 73 ∷ 83 ∷ 69 ∷ 32 ∷ 80 ∷ 85 ∷ 66 ∷ 76 ∷ 73 ∷ 67 ∷ 32 ∷ 75 ∷ 69 ∷ 89 ∷ []

-- "MPCR".
abbrev pub identity : List ℕ
identity = 0x4d ∷ 0x50 ∷ 0x43 ∷ 0x52 ∷ []

abbrev pub version : ℕ
version = 1

abbrev pub noop : ℕ
noop = 0

abbrev pub error : ℕ
error = 255

abbrev pub handshake_initiator : ℕ
handshake_initiator = 1

abbrev pub handshake_responder : ℕ
handshake_responder = 2

abbrev pub handshake_server : ℕ
handshake_server = 1

abbrev pub handshake_peer : ℕ
handshake_peer = 2

abbrev pub transparent : ℕ
transparent = 128

abbrev pub opaque : ℕ
opaque = 129

abbrev pub opaque_server : ℕ
opaque_server = 1

abbrev pub opaque_peer : ℕ
opaque_peer = 2

abbrev pub meeting_new : ℕ
meeting_new = 1

abbrev pub meeting_created : ℕ
meeting_created = 2

abbrev pub meeting_join : ℕ
meeting_join = 3

abbrev pub meeting_ready : ℕ
meeting_ready = 4

abbrev pub session_new : ℕ
session_new = 5

abbrev pub session_created : ℕ
session_created = 6

abbrev pub session_ready : ℕ
session_ready = 7

abbrev pub session_connection : ℕ
session_connection = 8

abbrev pub session_active : ℕ
session_active = 9

abbrev pub session_timeout : ℕ
session_timeout = 10

abbrev pub session_close : ℕ
session_close = 11

abbrev pub session_finished : ℕ
session_finished = 12

abbrev pub encoding_blob : ℕ
encoding_blob = 1

abbrev pub encoding_json : ℕ
encoding_json = 2
