-- ===== src/Examples/Pems.antt =====
-- A keypair of protocol/src/keypair.rs in a text that is its blocks, each part behind its length.
use mpc_sdk_framework.Prelude.{
  ℕ, zero, suc, ◌≤◌, ◌≡◌, ◌↔◌, refl, List, [], ◌∷◌, ◌++◌, Option, none, some, length, length-append,
  take, drop, arith,
}
use mpc_sdk_framework.Messages.{Bytes}
use mpc_sdk_framework.Wire.{ok}
use mpc_sdk_framework.Channel.Counter.{take-append, drop-append}
use mpc_sdk_framework.Keypair.{
  Keypair, Pem, PemText, IsPemText, keypair_pems, encode_keypair, decode_keypair,
  decode_keypair_iff,
}

put_block : Pem → Bytes → Bytes
put_block p rest = length p.tag ∷ (p.tag ++ (length p.contents ∷ (p.contents ++ rest)))

put_blocks : List Pem → Bytes
put_blocks [] = []
put_blocks (p ∷ pems) = put_block p (put_blocks pems)

abbrev cons_block : Bytes → Bytes → Option (List Pem) → Option (List Pem)
cons_block tag contents none = none
cons_block tag contents (some pems) = some (record { tag = tag; contents = contents } ∷ pems)

get_contents : (Bytes → Option (List Pem)) → Bytes → Bytes → Option (List Pem)
get_contents rest tag [] = none
get_contents rest tag (m ∷ text) = cons_block tag (take m text) (rest (drop m text))

get_blocks : ℕ → Bytes → Option (List Pem)
get_blocks fuel [] = some []
get_blocks zero (n ∷ text) = none
get_blocks (suc fuel) (n ∷ text) = get_contents (get_blocks fuel) (take n text) (drop n text)

get_blocks-put_blocks :
    (fuel : ℕ) (pems : List Pem)
    → length pems ≤ fuel
    → get_blocks fuel (put_blocks pems) ≡ some pems
unfolding get_blocks put_blocks put_block get_contents
get_blocks-put_blocks zero [] h = refl
get_blocks-put_blocks (suc fuel) [] h = refl
get_blocks-put_blocks zero (p ∷ pems) h = absurd (omega arith)
get_blocks-put_blocks (suc fuel) (p ∷ pems) h =
    let behind = length p.contents ∷ (p.contents ++ put_blocks pems) in
    rw
      (
        drop-append p.tag behind,
        get_contents,
        take-append p.tag behind,
        drop-append p.contents (put_blocks pems),
        get_blocks-put_blocks fuel pems (omega arith),
        take-append p.contents (put_blocks pems),
      )
      refl

length-put_blocks : (pems : List Pem) → length pems ≤ length (put_blocks pems)
unfolding put_blocks put_block
length-put_blocks [] = omega arith
length-put_blocks (p ∷ pems) =
    let rest = length-put_blocks pems in
    let outer = length-append p.tag (length p.contents ∷ (p.contents ++ put_blocks pems)) in
    let inner = length-append p.contents (put_blocks pems) in omega arith

instance abbrev blocks : PemText
blocks = record { encode_many = put_blocks; parse_many = λ text. get_blocks (length text) text }

blocks-IsPemText : IsPemText blocks
blocks-IsPemText = record {
  parses = λ pems h. get_blocks-put_blocks (length (put_blocks pems)) pems (length-put_blocks pems);
}

abbrev keypair : Keypair
keypair = record { public = 1 ∷ 2 ∷ []; private = 3 ∷ [] }

decode_keypair_iff_example :
    (decode_keypair (encode_keypair keypair) ≡ ok keypair)
    × ((text : Bytes)
        → (decode_keypair text ≡ ok keypair)
          ↔ (blocks.parse_many text ≡ some (keypair_pems keypair)))
decode_keypair_iff_example = decode_keypair_iff keypair blocks-IsPemText (omega arith) (omega arith)
