-- ===== src/Keypair.antt =====
-- `Keypair`, `encode_keypair` and `decode_keypair` of protocol/src/keypair.rs. The crate `pem` is an
-- interface.
use mpc_sdk_framework.Prelude.{
  arith, ℕ, sym, eq_list, all, leb, ◌||◌, ◌<◌, ◌≡◌, ◌↔◌, refl, Bool, true, ◌&&◌, List, [], ◌∷◌,
  Option, none, some, length, nat_eq, list_eq, ◌==◌, if◌then◌else◌, All, beq→eq, Bool-cases,
  Option-cases, inl, inr,
}
use mpc_sdk_framework.Messages.{Bytes}
use mpc_sdk_framework.Types
use mpc_sdk_framework.Wire.{Result, ok, err, panic, ok_or, pattern_mismatch, bad_keypair_pem}
use mpc_sdk_framework.Wire

pub record Keypair : Type 0 where
  pub public : Bytes
  pub private : Bytes

pub record Pem : Type 0 where
  pub tag : Bytes
  pub contents : Bytes

-- `encode_many` and `parse_many` of the crate `pem`; `none` is its error.
pub record PemText : Type 0 where
  pub encode_many : List Pem → Bytes
  pub parse_many : Bytes → Option (List Pem)

-- A letter of a tag: an upper-case letter or a space.
abbrev pub is_tag_byte : ℕ → Bool
is_tag_byte byte = byte == 32 || leb 65 byte && leb byte 90

-- A block that has a tag and contents.
abbrev pub IsBlock : Pem → Type 0
IsBlock p = (0 < length p.tag) × (all is_tag_byte p.tag ≡ true) × (0 < length p.contents)

-- What the crate documents: blocks are parsed as they were encoded.
pub record IsPemText (pem : PemText) : Type 0 where
  pub parses :
      (pems : List Pem) → All IsBlock pems → pem.parse_many (pem.encode_many pems) ≡ some pems

unfoldable pub keypair_pems : Keypair → List Pem
keypair_pems keypair =
    record { tag = Types.pem_pattern; contents = Types.pattern }
    ∷ record { tag = Types.pem_public; contents = keypair.public }
    ∷ record { tag = Types.pem_private; contents = keypair.private }
    ∷ []

-- What is made of the blocks of a text.
unfoldable pub decode_pems : List Pem → Result Keypair
decode_pems (first ∷ second ∷ third ∷ []) =
    if Types.pem_pattern == first.tag
      && Types.pem_public == second.tag
      && Types.pem_private == third.tag
    then (if first.contents == Types.pattern
        then ok (record { public = second.contents; private = third.contents })
        else err (pattern_mismatch Types.pattern))
    else err bad_keypair_pem
decode_pems pems = err bad_keypair_pem

module _ ⦃pem : PemText⦄ where
  unfoldable pub encode_keypair : Keypair → Bytes
  unfolding keypair_pems
  encode_keypair keypair = pem.encode_many (keypair_pems keypair)

  unfoldable pub decode_keypair : Bytes → Result Keypair
  unfolding decode_pems
  decode_keypair text = elim (pem.parse_many text) [
    | none ↦ err Wire.pem
    | some pems ↦ decode_pems pems
  ]

decodes : (keypair : Keypair) → decode_pems (keypair_pems keypair) ≡ ok keypair
unfolding decode_pems keypair_pems eq_list
decodes keypair = refl

decoded :
    (pems : List Pem) (keypair : Keypair)
    → decode_pems pems ≡ ok keypair
    → pems ≡ keypair_pems keypair
unfolding decode_pems keypair_pems
decoded [] keypair e = cc e
decoded (first ∷ []) keypair e = cc e
decoded (first ∷ second ∷ []) keypair e = cc e
decoded (first ∷ second ∷ third ∷ fourth ∷ pems) keypair e = cc e
decoded (first ∷ second ∷ third ∷ []) keypair e =
    elim (Bool-cases (Types.pem_pattern == first.tag)) [
      | inr other ↦ cc (rw other at e)
      | inl tag1 ↦ elim (Bool-cases (Types.pem_public == second.tag)) [
        | inr other ↦ cc (rw (tag1, other) at e)
        | inl tag2 ↦ elim (Bool-cases (Types.pem_private == third.tag)) [
          | inr other ↦ cc (rw (tag1, tag2, other) at e)
          | inl tag3 ↦ elim (Bool-cases (first.contents == Types.pattern)) [
            | inr other ↦ cc (rw (tag1, tag2, tag3, other) at e)
            | inl contents ↦
                let f : _ = rw (tag1, tag2, tag3, contents) at e in
                let made : record { public = second.contents; private = third.contents } ≡ keypair =
                  cc f in
                blocks (beq→eq _ _ tag1) (beq→eq _ _ tag2) (beq→eq _ _ tag3) (beq→eq _ _ contents)
                  made
          ]
        ]
      ]
    ]
  where
    blocks :
        Types.pem_pattern ≡ first.tag
        → Types.pem_public ≡ second.tag
        → Types.pem_private ≡ third.tag
        → first.contents ≡ Types.pattern
        → record { public = second.contents; private = third.contents } ≡ keypair
        → first ∷ second ∷ third ∷ [] ≡ keypair_pems keypair
    blocks a b c p k = λ i.
        record { tag = sym a i; contents = p i }
        ∷ record { tag = sym b i; contents = (k i).public }
        ∷ record { tag = sym c i; contents = (k i).private }
        ∷ []

blocks :
    (keypair : Keypair)
    → 0 < length keypair.public
    → 0 < length keypair.private
    → All IsBlock (keypair_pems keypair)
unfolding keypair_pems
blocks keypair public private = (
  (omega arith, refl, omega arith),
  ((omega arith, refl, public), ((omega arith, refl, private), tt)),
)

module _ ⦃pem : PemText⦄ where
  -- Over a crate `pem` that parses the blocks that it encoded: a keypair whose keys are not empty is
  -- decoded from the text that it is encoded to; and any text is decoded to a keypair exactly if its
  -- blocks are those that this keypair is encoded as, in their order.
  pub decode_keypair_iff :
      (keypair : Keypair)
      → IsPemText pem
      → 0 < length keypair.public
      → 0 < length keypair.private
      → (decode_keypair (encode_keypair keypair) ≡ ok keypair)
        × ((text : Bytes)
            → (decode_keypair text ≡ ok keypair)
              ↔ (pem.parse_many text ≡ some (keypair_pems keypair)))
  unfolding decode_keypair encode_keypair
  decode_keypair_iff keypair law has_public has_private = (
    rw (decode_keypair, law.parses (keypair_pems keypair) (blocks keypair has_public has_private))
        (decodes keypair),
    λ text. (
      λ e. elim (Option-cases (pem.parse_many text)) [
        | inl unparsed ↦ cc (rw (decode_keypair, unparsed) at e)
        | inr (pems, parsed) ↦
            let f : _ = rw (decode_keypair, parsed) at e in rw (parsed, decoded pems keypair f) refl
      ],
      λ e. rw (decode_keypair, e) (decodes keypair),
    ),
  )
