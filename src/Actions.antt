-- ===== src/Actions.antt =====
-- Calls on a state that end with a value, an error, a panic, or in a wait for room in a full channel,
-- and the state that they leave in each case.
use mpc_sdk_framework.Prelude.{
  ◌≡◌, refl, ◌⊎◌, inl, inr, Bool, true, false, Option, none, some, if◌then◌else◌,
}

pub data Outcome (E A : Type 0) : Type 0 where
  done : A → Outcome E A
  failed : E → Outcome E A
  panicked waiting : Outcome E A

abbrev pub Action : Type 0 → Type 0 → Type 0 → Type 0
Action S E A = S → Outcome E A × S

module _ {S E A B : Type 0} where
  unfoldable pub act_then : Outcome E A × S → (A → Action S E B) → Outcome E B × S
  act_then (done a, s) k = k a s
  act_then (failed e, s) k = (failed e, s)
  act_then (panicked, s) k = (panicked, s)
  act_then (waiting, s) k = (waiting, s)

  infixl 5 ◌>>=◌ ◌>>◌
  unfoldable pub ◌>>=◌ : Action S E A → (A → Action S E B) → Action S E B
  unfolding act_then
  ◌>>=◌ m k s = act_then (m s) k

  unfoldable pub ◌>>◌ : Action S E A → Action S E B → Action S E B
  unfolding ◌>>=◌
  ◌>>◌ m n = m >>= λ _. n

module _ {S E A : Type 0} where
  unfoldable pub pure : A → Action S E A
  pure a s = (done a, s)

  unfoldable pub fail : E → Action S E A
  fail e s = (failed e, s)

  unfoldable pub crash : Action S E A
  crash s = (panicked, s)

  -- `?` on the result of a call of another crate.
  unfoldable pub some_or : Option A → E → Action S E A
  some_or none e s = (failed e, s)
  some_or (some a) e s = (done a, s)

  -- `unwrap`.
  unfoldable pub unwrap : Option A → Action S E A
  unwrap none s = (panicked, s)
  unwrap (some a) s = (done a, s)

module _ {S E : Type 0} where
  unfoldable pub read_state : Action S E S
  read_state s = (done s, s)

  unfoldable pub write_state : S → Action S E Unit
  write_state s' s = (done tt, s')

-- A sequence that succeeds, taken apart at its first call.
pub act_cases :
    {S E A B : Type 0} (r : Outcome E A × S) (k : A → Action S E B) {b : B} {s : S}
    → act_then r k ≡ (done b, s)
    → (a : A) × (s' : S) × (r ≡ (done a, s')) × (k a s' ≡ (done b, s))
unfolding act_then
act_cases (done a, s') k e = (a, s', refl, e)
act_cases (failed x, s') k e = cc e
act_cases (panicked, s') k e = cc e
act_cases (waiting, s') k e = cc e

-- What an action keeps of the state, however it ends.
pub record Stays {κ} {S E A : Type 0} (P : S → Type κ) (m : Action S E A) : Type κ where
  pub apply : (s : S) → P s → P (m s).1

module _ {κ} {S E A B : Type 0} {P : S → Type κ} where
  pub after :
      (r : Outcome E A × S) (k : A → Action S E B)
      → P r.1
      → ((a : A) → Stays P (k a))
      → P (act_then r k).1
  unfolding act_then
  after (done a, s) k h next = (next a).apply s h
  after (failed e, s) k h next = h
  after (panicked, s) k h next = h
  after (waiting, s) k h next = h

  pub bind-Stays :
      {m : Action S E A} {k : A → Action S E B}
      → Stays P m
      → ((a : A) → Stays P (k a))
      → Stays P (m >>= k)
  unfolding ◌>>=◌
  bind-Stays {m} {k} h next = record { apply = λ s p. after (m s) k (h.apply s p) next }

  pub then-Stays : {m : Action S E A} {n : Action S E B} → Stays P m → Stays P n → Stays P (m >> n)
  unfolding ◌>>◌
  then-Stays h next = bind-Stays h (λ _. next)

module _ {κ} {S E B : Type 0} {P : S → Type κ} where
  -- After the state is read, for that state.
  pub read-Stays :
      (k : S → Action S E B) → ((s : S) → P s → P (k s s).1) → Stays P (read_state >>= k)
  unfolding ◌>>=◌ read_state act_then
  read-Stays k h = record { apply = h }

module _ {κ} {S E A : Type 0} {P : S → Type κ} where
  pub pure-Stays : (a : A) → Stays P (pure {S = S} {E = E} a)
  unfolding pure
  pure-Stays a = record { apply = λ s p. p }

  pub fail-Stays : (e : E) → Stays P (fail {S = S} {A = A} e)
  unfolding fail
  fail-Stays e = record { apply = λ s p. p }

  pub crash-Stays : Stays P (crash {S = S} {E = E} {A = A})
  unfolding crash
  crash-Stays = record { apply = λ s p. p }

  pub some_or-Stays : (o : Option A) (e : E) → Stays P (some_or {S = S} o e)
  unfolding some_or
  some_or-Stays none e = record { apply = λ s p. p }
  some_or-Stays (some a) e = record { apply = λ s p. p }

  pub if-Stays :
      (b : Bool) {m n : Action S E A} → Stays P m → Stays P n → Stays P (if b then m else n)
  if-Stays true h k = h
  if-Stays false h k = k

-- On what is found at a state.
pub found {κ} :
    {S E A B : Type 0} (P : S → Type κ) (o : Option A) (m : Action S E B) (f : A → Action S E B)
    (s : S)
    → (o ≡ none → P (m s).1)
    → ((a : A) → o ≡ some a → P (f a s).1)
    → P ((elim o as (λ x. Action S E B) [ none ↦ m | some a ↦ f a ]) s).1
found P none m f s h k = h refl
found P (some a) m f s h k = k a refl

-- A sequence that ends in an error, taken apart at its first call.
pub failed_cases :
    {S E A B : Type 0} (r : Outcome E A × S) (k : A → Action S E B) {e : E} {s : S}
    → act_then r k ≡ (failed e, s)
    → (r ≡ (failed e, s)) ⊎ ((a : A) × (s' : S) × (r ≡ (done a, s')) × (k a s' ≡ (failed e, s)))
unfolding act_then
failed_cases (done a, s') k e = inr (a, s', refl, e)
failed_cases (failed x, s') k e = inl (cc e)
failed_cases (panicked, s') k e = cc e
failed_cases (waiting, s') k e = cc e
