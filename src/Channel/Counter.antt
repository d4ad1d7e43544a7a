-- ===== src/Channel/Counter.antt =====
-- A transport state that meets the laws of `Noise`: a number, which is the tag of the next message,
-- sixteen times over.
use mpc_sdk_framework.Prelude.{
  ℕ, zero, suc, ◌+◌, ◌-◌, ◌≡◌, refl, [], ◌∷◌, ◌++◌, Option, none, some, length, length-append, take,
  drop, ltb, le→ltb, nat_eq, list_eq, beq_refl, ◌==◌, if◌then◌else◌, arith,
}
use mpc_sdk_framework.Messages.{Bytes}
use mpc_sdk_framework.Channel.Noise.{TransportState, IsChannel}

unfoldable pub tag : ℕ → ℕ → Bytes
tag zero t = []
tag (suc n) t = t ∷ tag n t

unfoldable pub counted : ℕ → Bytes → ℕ → Option Bytes × ℕ
unfolding tag
counted t payload size =
    if ltb size (length payload + 16) then (none, t) else (some (payload ++ tag 16 t), suc t)

unfoldable pub uncounted : ℕ → Bytes → ℕ → Option Bytes × ℕ
unfolding tag
uncounted t message room =
    let size : ℕ = length message - 16 in
    if ltb room size
    then (none, t)
    else if drop size message == tag 16 t
    then (some (take size message), suc t)
    else (none, t)

instance abbrev pub counter : TransportState ℕ
counter = record { write = counted; read = uncounted }

length-tag : (n t : ℕ) → length (tag n t) ≡ n
unfolding tag
length-tag zero t = refl
length-tag (suc n) t = ground (arith, length-tag n t)

pub take-append : (xs ys : Bytes) → take (length xs) (xs ++ ys) ≡ xs
take-append [] ys = ground arith
take-append (x ∷ xs) ys = ground (arith, take-append xs ys)

pub drop-append : (xs ys : Bytes) → drop (length xs) (xs ++ ys) ≡ ys
drop-append [] ys = ground arith
drop-append (x ∷ xs) ys = ground (arith, drop-append xs ys)

abbrev pub SameCount : ℕ → ℕ → Type 0
SameCount a b = a ≡ b

pub counter-IsChannel : IsChannel counter SameCount
unfolding counted uncounted
counter-IsChannel = record {
  delivers = λ a b payload size room paired limit fits clear.
      let tagged : length (payload ++ tag 16 a) ≡ length payload + 16 =
        rw (length-append payload (tag 16 a), length-tag 16 a) refl in
      let cut : length (payload ++ tag 16 a) - 16 ≡ length payload = omega arith in
      (
        payload ++ tag 16 a,
        suc a,
        suc b,
        rw (counted, le→ltb size (length payload + 16) fits) refl,
        tagged,
        rw
            (
              uncounted,
              cut,
              le→ltb room (length payload) clear,
              drop-append payload (tag 16 a),
              paired,
              beq_refl (tag 16 b),
              take-append payload (tag 16 b),
            )
            refl,
        cc paired,
      );
}
