-- ===== src/Channel/Chunks/Malformed.antt =====
-- Chunks as another party may send them, whose `length` and `contents` are decoded independently,
-- in `Chunk::join` of protocol/src/protocol.rs.
use mpc_sdk_framework.Prelude.{◌<◌, ◌≡◌, refl, List, [], ◌∷◌, ◌++◌, length, lt→ltb}
use mpc_sdk_framework.Messages.{Bytes, Chunk}
use mpc_sdk_framework.Wire.{Result, ok, err, panic}
use mpc_sdk_framework.Channel.Noise.{TransportState, call_then, call_cases, Call}
use mpc_sdk_framework.Channel.Chunks.Defs.{decrypt_chunk, join}

panics :
    {S A B : Type 0} (r : Result A × S) (k : A → Call S B) → r.0 ≡ panic → (call_then r k).0 ≡ panic
unfolding call_then
panics (ok a, s) k e = cc
panics (err x, s) k e = cc
panics (panic, s) k e = refl

module _ {T : Type 0} ⦃noise : TransportState T⦄ where
  decrypt_chunk-panic :
      (c : Chunk) (t : T) → length c.contents < c.length → decrypt_chunk c t ≡ (panic, t)
  unfolding decrypt_chunk
  decrypt_chunk-panic c t h = rw (lt→ltb (length c.contents) c.length h)

  -- A chunk whose declared length is greater than its contents makes `join` panic, behind any chunks
  -- that decrypt, and whatever follows it.
  pub join-panic :
      (cs : List Chunk) (c : Chunk) (more : List Chunk) (t t' : T) (payload : Bytes)
      → join cs t ≡ (ok payload, t')
      → length c.contents < c.length
      → (join (cs ++ c ∷ more) t).0 ≡ panic
  unfolding join call_then
  join-panic [] c more t t' payload e h = rw (decrypt_chunk-panic c t h)
  join-panic (d ∷ cs) c more t t' payload e h =
      let (first, s, decrypted, e') = call_cases (decrypt_chunk d t) _ e in
      let (rest, u, joined, _) = call_cases (join cs s) _ e' in
      rw decrypted (panics (join (cs ++ c ∷ more) s) _ (join-panic cs c more s u rest joined h))
