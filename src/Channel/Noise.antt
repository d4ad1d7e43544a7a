-- ===== src/Channel/Noise.antt =====
-- The calls that the program makes of the crate `snow`, as an interface, and its protocol states.
use mpc_sdk_framework.Prelude.{ℕ, zero, suc, ◌+◌, ◌≤◌, ◌≡◌, refl, [], ◌∷◌, Option, some, length}
use mpc_sdk_framework.Messages.{Bytes}
use mpc_sdk_framework.Types
use mpc_sdk_framework.Wire.{Result, ok, err, panic}

-- A call is given its input and the size of the buffer that it writes into; it gives what it writes
-- there, or `none` for a `snow::Error`, and the state that it leaves.
pub record TransportState (T : Type 0) : Type 0 where
  pub write : T → Bytes → ℕ → Option Bytes × T
  pub read : T → Bytes → ℕ → Option Bytes × T

pub record HandshakeState (H T : Type 0) : Type 0 where
  pub write : H → Bytes → ℕ → Option Bytes × H
  pub read : H → Bytes → ℕ → Option Bytes × H
  pub into_transport_mode : H → Option T

-- `enum ProtocolState`.
pub data ProtocolState (H T : Type 0) : Type 0 where
  handshake : H → ProtocolState H T
  transport : T → ProtocolState H T

-- A fallible call on a state, which keeps what the call did to the state also when it fails.
abbrev pub Call : Type 0 → Type 0 → Type 0
Call S A = S → Result A × S

unfoldable pub call_then : {S A B : Type 0} → Result A × S → (A → Call S B) → Result B × S
call_then (ok a, s) k = k a s
call_then (err e, s) k = (err e, s)
call_then (panic, s) k = (panic, s)

-- A sequence that succeeds, taken apart at its first call.
pub call_cases :
    {S A B : Type 0} (r : Result A × S) (k : A → Call S B) {b : B} {s : S}
    → call_then r k ≡ (ok b, s)
    → (a : A) × (s' : S) × (r ≡ (ok a, s')) × (k a s' ≡ (ok b, s))
unfolding call_then
call_cases (ok a, s') k e = (a, s', refl, e)
call_cases (err x, s') k e = cc
call_cases (panic, s') k e = cc

-- A buffer of `size` zeros with `bytes` written to its front.
unfoldable pub written_into : ℕ → Bytes → Bytes
written_into zero bytes = bytes
written_into (suc size) [] = 0 ∷ written_into size []
written_into (suc size) (b ∷ bytes) = b ∷ written_into size bytes

-- What `snow` documents of two transport states that keep pace with one another: a payload within
-- the limit of a noise message is written with a tag of `taglen` bytes behind it, and the other
-- side reads it back, into any buffers that are large enough.
pub record IsChannel {T : Type 0} (noise : TransportState T) (Paired : T → T → Type 0)
    : Type 0 where
  pub delivers :
      (a b : T) (payload : Bytes) (size room : ℕ)
      → Paired a b
      → length payload + Types.taglen ≤ Types.max_buffer_size
      → length payload + Types.taglen ≤ size
      → length payload ≤ room
      → (message : Bytes) × (a' : T) × (b' : T) × (noise.write a payload size ≡ (some message, a'))
        × (length message ≡ length payload + Types.taglen)
        × (noise.read b message room ≡ (some payload, b'))
        × Paired a' b'
