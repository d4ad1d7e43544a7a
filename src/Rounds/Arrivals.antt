-- ===== src/Rounds/Arrivals.antt =====
-- What a `RoundBuffer` of driver/src/round.rs holds after messages of any rounds in any order.
use mpc_sdk_framework.Prelude.{
  ℕ, zero, suc, ◌+◌, ◌≤◌, ◌<◌, ◌≡◌, ◌↔◌, refl, true, ◌&&◌, List, [], ◌∷◌, ◌++◌, append_assoc,
  append-nil, Option, none, some, get, get-insert, get-remove, nat_eq, length, arith, ltb, ◌==◌,
  if◌then◌else◌, inl, inr, sym, beq→eq, Bool-cases,
}
use mpc_sdk_framework.Rounds.Defs.{
  RoundBuffer, expected_rounds, new_fixed, or_empty, add_message, has_amount, is_ready, take_round,
}

get-expected_rounds :
    (rounds messages_per_round round : ℕ)
    → get round (expected_rounds rounds messages_per_round)
      ≡ (if ltb 0 round && ltb round (rounds + 1) then some messages_per_round else none)
unfolding expected_rounds get
get-expected_rounds zero n round = ground arith
get-expected_rounds (suc i) n round =
    ground (arith, get-expected_rounds i n round, get-insert (i + 1) round n (expected_rounds i n))

module _ {I : Type 0} where
  unfoldable pub add_all : List (ℕ × I) → RoundBuffer I → RoundBuffer I
  unfolding add_message
  add_all [] b = b
  add_all ((round, message) ∷ arrivals) b = add_all arrivals (add_message round message b)

  -- The messages of a round, in the order in which they arrived.
  unfoldable pub of_round : ℕ → List (ℕ × I) → List I
  of_round round [] = []
  of_round round ((r, message) ∷ arrivals) =
      let rest = of_round round arrivals in if r == round then message ∷ rest else rest

  held : ℕ → RoundBuffer I → List I
  held round b = or_empty (get round b.messages)

  held-add :
      (round r : ℕ) (message : I) (b : RoundBuffer I)
      → held round (add_message r message b) ≡ held round b ++ of_round round ((r, message) ∷ [])
  unfolding held add_message of_round or_empty
  held-add round r message b = elim (Bool-cases (r == round)) [
    | inl p ↦
        rw (get-insert r round (or_empty (get r b.messages) ++ message ∷ []) b.messages, p)
          (let e : r ≡ round = beq→eq r round p in rw e refl)
    | inr p ↦
        rw (get-insert r round (or_empty (get r b.messages) ++ message ∷ []) b.messages, p)
          (sym (append-nil (held round b)))
  ]

  of_round-first :
      (round r : ℕ) (message : I) (arrivals : List (ℕ × I))
      → of_round round ((r, message) ∷ []) ++ of_round round arrivals
        ≡ of_round round ((r, message) ∷ arrivals)
  unfolding of_round
  of_round-first round r message arrivals = ground arith

  held-add_all :
      (round : ℕ) (arrivals : List (ℕ × I)) (b : RoundBuffer I)
      → held round (add_all arrivals b) ≡ held round b ++ of_round round arrivals
  unfolding add_all of_round
  held-add_all round [] b = sym (append-nil (held round b))
  held-add_all round ((r, message) ∷ arrivals) b =
      rw
        (
          held-add_all round arrivals (add_message r message b),
          held-add round r message b,
          append_assoc (held round b) (of_round round ((r, message) ∷ []))
              (of_round round arrivals),
          of_round-first round r message arrivals,
        )
        refl

  -- After messages of any rounds in any order, taking a round gives what the buffer held for it and
  -- the messages of that round that arrived, in their order; it leaves what is held for every other
  -- round, and nothing for the round itself.
  pub take_round-add_all :
      (round other : ℕ) (arrivals : List (ℕ × I)) (b : RoundBuffer I)
      → ((take_round round (add_all arrivals b)).0
          ≡ (take_round round b).0 ++ of_round round arrivals)
        × ((take_round other (take_round round (add_all arrivals b)).1).0
            ≡ (if round == other then [] else (take_round other b).0 ++ of_round other arrivals))
  unfolding take_round held or_empty
  take_round-add_all round other arrivals b = (
    held-add_all round arrivals b,
    elim (Bool-cases (round == other)) [
      | inl p ↦ rw (get-remove round other (add_all arrivals b).messages, p) refl
      | inr p ↦
          rw (get-remove round other (add_all arrivals b).messages, p)
            (held-add_all other arrivals b)
    ],
  )

  expected-add_all :
      (arrivals : List (ℕ × I)) (b : RoundBuffer I) → (add_all arrivals b).expected ≡ b.expected
  unfolding add_all add_message
  expected-add_all [] b = refl
  expected-add_all ((r, message) ∷ arrivals) b = expected-add_all arrivals (add_message r message b)

  has_amount_iff :
      (n : ℕ) (o : Option (List I))
      → 0 < n
      → (has_amount (some n) o ≡ true) ↔ (length (or_empty o) ≡ n)
  unfolding has_amount or_empty
  has_amount_iff n none h = ground arith
  has_amount_iff n (some messages) h = ground arith

  ready_count :
      (rounds n round : ℕ) (arrivals : List (ℕ × I))
      → or_empty (get round (add_all arrivals (new_fixed rounds n)).messages)
        ≡ of_round round arrivals
  unfolding held new_fixed get or_empty
  ready_count rounds n round arrivals = held-add_all round arrivals (new_fixed rounds n)

  -- A buffer for a positive number of messages in each of its rounds is ready for a round, after
  -- messages of any rounds in any order, exactly when the round is one of its own and as many
  -- messages as expected have arrived for it.
  pub is_ready_iff :
      (rounds messages_per_round round : ℕ) (arrivals : List (ℕ × I))
      → 0 < messages_per_round
      → (is_ready round (add_all arrivals (new_fixed rounds messages_per_round)) ≡ true)
        ↔ ((1 ≤ round) × (round ≤ rounds) × (length (of_round round arrivals) ≡ messages_per_round))
  unfolding is_ready new_fixed has_amount
  is_ready_iff rounds n round arrivals h =
      let start : RoundBuffer I = new_fixed rounds n in
      let b : RoundBuffer I = add_all arrivals start in
      let count : or_empty (get round b.messages) ≡ of_round round arrivals =
        ready_count rounds n round arrivals in
      rw (expected-add_all arrivals start, get-expected_rounds rounds n round)
        (ground (arith, has_amount_iff n (get round b.messages) h, count))
