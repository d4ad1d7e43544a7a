-- ===== src/Wire/Carries.antt =====
-- When what a writer writes is what a reader reads back: the composition of such pairs, and the
-- laws of the primitives.
use mpc_sdk_framework.Prelude.{
  ℕ, ◌≤◌, ◌<◌, ◌^◌, Bool, true, List, [], ◌∷◌, ◌++◌, append_assoc, some, ◌≡◌, refl, length, All,
}
use mpc_sdk_framework.Types
use mpc_sdk_framework.Messages.{Bytes}
use mpc_sdk_framework.Wire.Defs.{ok, BinaryStream}
use mpc_sdk_framework.Wire.Writer
use mpc_sdk_framework.Wire.Writer.{
  Writer, prepend, write_each, write_u8, write_u16, write_u32, write_bool, write_bytes,
  write_string,
}
use mpc_sdk_framework.Wire.Reader.{
  Reader, ◌>>=◌, ◌>>◌, pure, read_each, read_u8, read_u16, read_u32, read_bool, read_bytes,
  read_string,
}

-- The writer succeeds, and the reader reads the value back and leaves what follows it.
pub record Carries {ℓ} {A : Type ℓ} (w : Writer) (r : Reader A) (a : A) : Type ℓ where
  pub bytes : Bytes
  pub written : w ≡ ok bytes
  pub reads : (rest : Bytes) → r (bytes ++ rest) ≡ ok (a, rest)

module _ {ℓ κ} {A : Type ℓ} {B : Type κ} where
  pub carries-then :
      {w v : Writer} {r : Reader A} {a : A} {b : B} (k : A → Reader B)
      → Carries w r a
      → Carries v (k a) b
      → Carries (Writer.◌>>◌ w v) (r >>= k) b
  unfolding Writer.◌>>◌ ◌>>=◌
  carries-then k c d = record {
    bytes = c.bytes ++ d.bytes;
    written = rw (c.written, d.written);
    reads =
        λ rest. rw (append_assoc c.bytes d.bytes rest, c.reads (d.bytes ++ rest)) (d.reads rest);
  }

  pub carries-first :
      {w v : Writer} {r : Reader A} {s : Reader B} {a : A} {b : B}
      → Carries w r a
      → Carries v s b
      → Carries (Writer.◌>>◌ w v) (r >> s) b
  unfolding ◌>>◌
  carries-first c d = carries-then _ c d

  -- A check that passes reads nothing.
  pub carries-check :
      {w : Writer} {s : Reader B} {b : B} (a : A) → Carries w s b → Carries w (pure a >> s) b
  unfolding ◌>>◌ pure
  carries-check a c = record { bytes = c.bytes; written = c.written; reads = λ rest. c.reads rest }

  pub carries-known :
      {w : Writer} {b : B} (a : A) (k : A → Reader B)
      → Carries w (k a) b
      → Carries w (pure a >>= k) b
  unfolding ◌>>=◌ pure
  carries-known a k c = record {
    bytes = c.bytes;
    written = c.written;
    reads = λ rest. c.reads rest;
  }

  pub carries-return :
      {w : Writer} {r : Reader A} {a : A} (k : A → Reader B) (b : B)
      → k a ≡ pure b
      → Carries w r a
      → Carries w (r >>= k) b
  unfolding ◌>>=◌ pure
  carries-return k b e c = record {
    bytes = c.bytes;
    written = c.written;
    reads = λ rest. rw (c.reads rest, e);
  }

  pub carries-map :
      {w : Writer} {r : Reader A} {a : A} (f : A → B)
      → Carries w r a
      → Carries w (r >>= λ x. pure (f x)) (f a)
  unfolding ◌>>=◌ pure
  carries-map f c = record {
    bytes = c.bytes;
    written = c.written;
    reads = λ rest. rw (c.reads rest);
  }

pub carries-pure {ℓ} : {A : Type ℓ} (a : A) → Carries (ok []) (pure a) a
unfolding pure
carries-pure a = record { bytes = []; written = refl; reads = λ rest. refl }

-- A loop of writes is read back by a loop of as many reads.
pub carries-each {ℓ κ} :
    {A : Type ℓ} (P : A → Type κ) (f : A → Writer) (r : Reader A) (xs : List A)
    → ((x : A) → P x → Carries (f x) r x)
    → All P xs
    → Carries (write_each f xs) (read_each (length xs) r) xs
unfolding write_each read_each
carries-each P f r [] each h = carries-pure []
carries-each P f r (x ∷ xs) each h =
    carries-then _ (each x h.0) (carries-map (λ ys. x ∷ ys) (carries-each P f r xs each h.1))

-- The documented behaviour of the primitives: what is written in range is read back, and
-- `read_bytes` gives as many bytes as it was asked for.
pub record IsFaithful (bin : BinaryStream) : Type 0 where
  pub u8_carries : (n : ℕ) → n < 2 ^ 8 → Carries (write_u8 ⦃bin = bin⦄ n) (read_u8 ⦃bin = bin⦄) n
  pub u16_carries :
      (n : ℕ) → n < 2 ^ 16 → Carries (write_u16 ⦃bin = bin⦄ n) (read_u16 ⦃bin = bin⦄) n
  pub u32_carries :
      (n : ℕ) → n < 2 ^ 32 → Carries (write_u32 ⦃bin = bin⦄ n) (read_u32 ⦃bin = bin⦄) n
  pub bool_carries : (b : Bool) → Carries (write_bool ⦃bin = bin⦄ b) (read_bool ⦃bin = bin⦄) b
  pub bytes_carries :
      (bs : Bytes)
      → length bs ≤ Types.max_buffer_size
      → Carries (write_bytes ⦃bin = bin⦄ bs) (read_bytes ⦃bin = bin⦄ (length bs)) bs
  pub string_carries :
      (s : Bytes)
      → bin.is_utf8 s ≡ true
      → length s ≤ Types.max_buffer_size
      → Carries (write_string ⦃bin = bin⦄ s) (read_string ⦃bin = bin⦄) s
  pub bytes_read-length :
      (n : ℕ) (input bs rest : Bytes) → bin.bytes_read n input ≡ some (bs, rest) → length bs ≡ n
