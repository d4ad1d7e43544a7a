-- ===== src/Wire/NoPanic.antt =====
-- When a reader never panics, and how such readers compose.
use mpc_sdk_framework.Prelude.{
  ℕ, zero, suc, Bool, true, false, ◌∷◌, ◌≡◌, ◌≢◌, refl, arith, length, Option, none, some,
  if◌then◌else◌,
}
use mpc_sdk_framework.Messages.{Bytes}
use mpc_sdk_framework.Wire.Defs.{Error, Result, ok, err, panic, BinaryStream, ok_or}
use mpc_sdk_framework.Wire.Reader.{
  Reader, and_then, ◌>>=◌, ◌>>◌, pure, fail, read_each, into_array, try_into_array, try_into_status,
  read_u8, read_u16, read_u32, read_bool, read_bytes, read_string,
}
use mpc_sdk_framework.Wire.Carries.{IsFaithful}

-- On every input, however malformed.
pub record NoPanic {ℓ} {A : Type ℓ} (r : Reader A) : Type ℓ where
  pub apply : (input : Bytes) → r input ≢ panic

pub pure-NoPanic {ℓ} : {A : Type ℓ} (a : A) → NoPanic (pure a)
unfolding pure
pure-NoPanic a = record { apply = λ input e. cc }

pub fail-NoPanic {ℓ} : {A : Type ℓ} (e : Error) → NoPanic (fail {A = A} e)
unfolding fail
fail-NoPanic e = record { apply = λ input h. cc }

module _ {ℓ κ} {A : Type ℓ} {B : Type κ} where
  bind_step :
      (r : Result (A × Bytes)) (k : A → Reader B)
      → r ≢ panic
      → ((a : A) → NoPanic (k a))
      → and_then r k ≢ panic
  unfolding and_then
  bind_step (ok (a, rest)) k h next = (next a).apply rest
  bind_step (err e) k h next = λ p. cc
  bind_step panic k h next = absurd (h refl)

  pub bind-NoPanic :
      {r : Reader A} {k : A → Reader B} → NoPanic r → ((a : A) → NoPanic (k a)) → NoPanic (r >>= k)
  unfolding ◌>>=◌
  bind-NoPanic {r} {k} h next = record {
    apply = λ input. bind_step (r input) k (h.apply input) next;
  }

  pub then-NoPanic : {r : Reader A} {s : Reader B} → NoPanic r → NoPanic s → NoPanic (r >> s)
  unfolding ◌>>◌
  then-NoPanic h next = bind-NoPanic h (λ _. next)

pub if-NoPanic {ℓ} :
    {A : Type ℓ} (b : Bool) {x y : Reader A} → NoPanic x → NoPanic y → NoPanic (if b then x else y)
if-NoPanic true hx hy = hx
if-NoPanic false hx hy = hy

pub each-NoPanic {ℓ} : {A : Type ℓ} (n : ℕ) (r : Reader A) → NoPanic r → NoPanic (read_each n r)
unfolding read_each
each-NoPanic zero r h = pure-NoPanic _
each-NoPanic (suc n) r h =
    bind-NoPanic h (λ x. bind-NoPanic (each-NoPanic n r h) (λ xs. pure-NoPanic (x ∷ xs)))

pub try_into_array-NoPanic : (n : ℕ) (bs : Bytes) → NoPanic (try_into_array n bs)
unfolding try_into_array
try_into_array-NoPanic n bs = record { apply = λ input. ground arith }

ok_or-ne-panic {ℓ} : {A : Type ℓ} (o : Option A) (e : Error) → ok_or o e ≢ panic
ok_or-ne-panic none e p = cc
ok_or-ne-panic (some a) e p = cc

module _ ⦃bin : BinaryStream⦄ where
  pub try_into_status-NoPanic : (code : ℕ) → NoPanic (try_into_status code)
  unfolding try_into_status
  try_into_status-NoPanic code = record { apply = λ input. ground arith }

  pub read_u8-NoPanic : NoPanic read_u8
  unfolding read_u8
  read_u8-NoPanic = record { apply = λ input. ok_or-ne-panic _ _ }

  pub read_u16-NoPanic : NoPanic read_u16
  unfolding read_u16
  read_u16-NoPanic = record { apply = λ input. ok_or-ne-panic _ _ }

  pub read_u32-NoPanic : NoPanic read_u32
  unfolding read_u32
  read_u32-NoPanic = record { apply = λ input. ok_or-ne-panic _ _ }

  pub read_bool-NoPanic : NoPanic read_bool
  unfolding read_bool
  read_bool-NoPanic = record { apply = λ input. ok_or-ne-panic _ _ }

  pub read_string-NoPanic : NoPanic read_string
  unfolding read_string
  read_string-NoPanic = record { apply = λ input. ok_or-ne-panic _ _ }

  pub read_bytes-NoPanic : (n : ℕ) → NoPanic (read_bytes n)
  unfolding read_bytes
  read_bytes-NoPanic n = record { apply = λ input. ok_or-ne-panic _ _ }

  -- What `read_bytes n` gives has `n` bytes, so the `unwrap` behind it cannot fail.
  array_step :
      (n : ℕ) (o : Option (Bytes × Bytes))
      → ((bs rest : Bytes) → o ≡ some (bs, rest) → length bs ≡ n)
      → and_then (ok_or o Error.io) (into_array n) ≢ panic
  unfolding and_then into_array
  array_step n none h = λ p. cc
  array_step n (some (bs, rest)) h = ground (arith, h bs rest refl)

  pub array-NoPanic : IsFaithful bin → (n : ℕ) → NoPanic (read_bytes n >>= into_array n)
  unfolding ◌>>=◌ read_bytes
  array-NoPanic faithful n = record {
    apply = λ input. array_step n (bin.bytes_read n input) (faithful.bytes_read-length n input);
  }
