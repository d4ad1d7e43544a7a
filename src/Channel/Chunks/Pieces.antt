-- ===== src/Channel/Chunks/Pieces.antt =====
-- The pieces of a payload that `Chunk::split` of protocol/src/protocol.rs encrypts.
use mpc_sdk_framework.Prelude.{
  ℕ, zero, suc, ◌≤◌, ◌<◌, ◌≡◌, refl, List, [], ◌∷◌, ◌++◌, length, take, drop, All, arith,
  take-append-drop, length-drop,
}
use mpc_sdk_framework.Messages.{Bytes}
use mpc_sdk_framework.Channel.Chunks.Defs.{pieces}

unfoldable pub concat : List Bytes → Bytes
concat [] = []
concat (p ∷ ps) = p ++ concat ps

pub length-take_le : (n : ℕ) (xs : Bytes) → length (take n xs) ≤ n
length-take_le zero xs = omega arith
length-take_le (suc n) [] = omega arith
length-take_le (suc n) (x ∷ xs) = omega (arith, length-take_le n xs)

-- With fuel for each byte nothing is lost.
pub concat-pieces :
    (fuel size : ℕ) (bytes : Bytes)
    → 0 < size
    → length bytes ≤ fuel
    → concat (pieces fuel size bytes) ≡ bytes
unfolding concat pieces
concat-pieces zero size [] h le = refl
concat-pieces zero size (b ∷ bytes) h le = absurd (omega arith)
concat-pieces (suc fuel) size [] h le = refl
concat-pieces (suc fuel) size (b ∷ bytes) h le =
    rw
      (concat-pieces fuel size (drop size (b ∷ bytes)) h
        (omega (arith, length-drop size (b ∷ bytes))))
      (take-append-drop size (b ∷ bytes))

pub pieces_bounded :
    (fuel size : ℕ) (bytes : Bytes) → All (λ p. length p ≤ size) (pieces fuel size bytes)
unfolding pieces
pieces_bounded zero size bytes = tt
pieces_bounded (suc fuel) size [] = tt
pieces_bounded (suc fuel) size (b ∷ bytes) =
    (length-take_le size (b ∷ bytes), pieces_bounded fuel size (drop size (b ∷ bytes)))

pub length-pieces : (fuel size : ℕ) (bytes : Bytes) → length (pieces fuel size bytes) ≤ fuel
unfolding pieces
length-pieces zero size bytes = omega arith
length-pieces (suc fuel) size [] = omega arith
length-pieces (suc fuel) size (b ∷ bytes) =
    omega (arith, length-pieces fuel size (drop size (b ∷ bytes)))
