-- ===== src/Wire/LittleEndian.antt =====
-- A stream of primitives that meets the laws of `IsFaithful`: numbers by their bytes, lowest first,
-- a string behind its length, and no buffer over the limit.
use mpc_sdk_framework.Prelude.{
  le→ltb, ℕ, zero, suc, ◌+◌, ◌*◌, ◌/◌, ◌%◌, ◌^◌, ◌≤◌, ◌<◌, Bool, true, false, [], ◌∷◌, ◌++◌, Option,
  none, some, ◌≡◌, refl, ◌&&◌, arith, length, ltb, leb, le→ltb, append_assoc, Option-cases, inl,
  inr, if◌then◌else◌,
}
use mpc_sdk_framework.Types
use mpc_sdk_framework.Messages.{Bytes}
use mpc_sdk_framework.Wire.Defs.{ok, ok_or, Error, BinaryStream}
use mpc_sdk_framework.Wire.Writer.{
  write_u8, write_u16, write_u32, write_bool, write_bytes, write_string,
}
use mpc_sdk_framework.Wire.Reader.{read_u8, read_u16, read_u32, read_bool, read_bytes, read_string}
use mpc_sdk_framework.Wire.Carries.{Carries, IsFaithful}

-- The lowest `k` bytes of a number.
pub put_number : ℕ → ℕ → Bytes
put_number zero n = []
put_number (suc k) n = n % 256 ∷ put_number k (n / 256)

get_number : ℕ → Bytes → Option (ℕ × Bytes)
get_number zero input = some (0, input)
get_number (suc k) [] = none
get_number (suc k) (b ∷ input) = elim (get_number k input) [
  | none ↦ none
  | some (n, rest) ↦ some (b + 256 * n, rest)
]

take_bytes : ℕ → Bytes → Option (Bytes × Bytes)
take_bytes zero input = some ([], input)
take_bytes (suc n) [] = none
take_bytes (suc n) (b ∷ input) = elim (take_bytes n input) [
  | none ↦ none
  | some (bs, rest) ↦ some (b ∷ bs, rest)
]

put_bool : Bool → Bytes
put_bool true = 1 ∷ []
put_bool false = 0 ∷ []

get_bool : Bytes → Option (Bool × Bytes)
get_bool [] = none
get_bool (b ∷ input) = some (ltb 0 b, input)

put_bytes : Bytes → Option Bytes
put_bytes bs = if ltb Types.max_buffer_size (length bs) then none else some bs

put_string : Bytes → Option Bytes
put_string s =
    if ltb Types.max_buffer_size (length s) then none else some (put_number 4 (length s) ++ s)

get_string : Bytes → Option (Bytes × Bytes)
get_string input = elim (get_number 4 input) [ none ↦ none | some (n, rest) ↦ take_bytes n rest ]

get_number-put_number :
    (k n : ℕ) (rest : Bytes) → n < 256 ^ k → get_number k (put_number k n ++ rest) ≡ some (n, rest)
unfolding get_number put_number
get_number-put_number zero n rest h = ground arith
get_number-put_number (suc k) n rest h =
    rw (get_number-put_number k (n / 256) rest (grind arith)) (ground arith)

take_bytes-append : (bs rest : Bytes) → take_bytes (length bs) (bs ++ rest) ≡ some (bs, rest)
unfolding take_bytes
take_bytes-append [] rest = refl
take_bytes-append (b ∷ bs) rest = rw (take_bytes-append bs rest)

get_string-put_string :
    (s rest : Bytes)
    → length s ≤ Types.max_buffer_size
    → get_string ((put_number 4 (length s) ++ s) ++ rest) ≡ some (s, rest)
unfolding get_string
get_string-put_string s rest h =
    rw
      (
        append_assoc (put_number 4 (length s)) s rest,
        get_string,
        get_number-put_number 4 (length s) (s ++ rest) (omega arith),
      )
      (take_bytes-append s rest)

length-take_bytes :
    (n : ℕ) (input bs rest : Bytes) → take_bytes n input ≡ some (bs, rest) → length bs ≡ n
unfolding take_bytes
length-take_bytes zero input bs rest e = ground arith
length-take_bytes (suc n) [] bs rest e = cc
length-take_bytes (suc n) (b ∷ input) bs rest e = elim (Option-cases (take_bytes n input)) [
  | inl p ↦ ground arith
  | inr ((cs, r), p) ↦ ground (arith, length-take_bytes n input cs r p)
]

instance abbrev pub little_endian : BinaryStream
unfolding put_number get_number take_bytes put_bool get_bool put_bytes put_string get_string
little_endian = record {
  u8_write = λ n. some (put_number 1 n);
  u16_write = λ n. some (put_number 2 n);
  u32_write = λ n. some (put_number 4 n);
  bool_write = λ b. some (put_bool b);
  bytes_write = put_bytes;
  string_write = put_string;
  u8_read = get_number 1;
  u16_read = get_number 2;
  u32_read = get_number 4;
  bool_read = get_bool;
  bytes_read = take_bytes;
  string_read = get_string;
  is_utf8 = λ s. true;
  is_status_code = λ code. leb 100 code && ltb code 1000;
}

module _ (k n : ℕ) (h : n < 256 ^ k) where
  number-reads :
      (rest : Bytes) → ok_or (get_number k (put_number k n ++ rest)) Error.io ≡ ok (n, rest)
  number-reads rest = rw (get_number-put_number k n rest h)

bool-carries : (b : Bool) → Carries (write_bool b) read_bool b
unfolding little_endian write_bool read_bool put_bool get_bool
bool-carries true = record { bytes = 1 ∷ []; written = refl; reads = λ rest. refl }
bool-carries false = record { bytes = 0 ∷ []; written = refl; reads = λ rest. refl }

bytes-carries :
    (bs : Bytes)
    → length bs ≤ Types.max_buffer_size
    → Carries (write_bytes bs) (read_bytes (length bs)) bs
unfolding little_endian write_bytes read_bytes put_bytes
bytes-carries bs h = record {
  bytes = bs;
  written = rw (le→ltb Types.max_buffer_size (length bs) h);
  reads = λ rest. rw (take_bytes-append bs rest);
}

string-carries :
    (s : Bytes) → length s ≤ Types.max_buffer_size → Carries (write_string s) read_string s
unfolding little_endian write_string read_string put_string
string-carries s h = record {
  bytes = put_number 4 (length s) ++ s;
  written = rw (le→ltb Types.max_buffer_size (length s) h);
  reads = λ rest. rw (get_string-put_string s rest h);
}

-- The laws can be met.
pub little_endian-IsFaithful : IsFaithful little_endian
unfolding little_endian write_u8 read_u8 write_u16 read_u16 write_u32 read_u32
little_endian-IsFaithful = record {
  u8_carries = λ n h. record {
    bytes = put_number 1 n;
    written = refl;
    reads = number-reads 1 n (omega arith);
  };
  u16_carries = λ n h. record {
    bytes = put_number 2 n;
    written = refl;
    reads = number-reads 2 n (omega arith);
  };
  u32_carries = λ n h. record {
    bytes = put_number 4 n;
    written = refl;
    reads = number-reads 4 n (omega arith);
  };
  bool_carries = bool-carries;
  bytes_carries = bytes-carries;
  string_carries = λ s u h. string-carries s h;
  bytes_read-length = length-take_bytes;
}

pub is_status_code_500 : little_endian.is_status_code 500 ≡ true
unfolding little_endian
is_status_code_500 = refl

pub is_utf8-any : (text : Bytes) → little_endian.is_utf8 text ≡ true
unfolding little_endian
is_utf8-any text = refl

pub u8_write-eq : (n : ℕ) → little_endian.u8_write n ≡ some (put_number 1 n)
unfolding little_endian
u8_write-eq n = refl

pub length-put_number : (k n : ℕ) → length (put_number k n) ≡ k
unfolding put_number
length-put_number zero n = refl
length-put_number (suc k) n = ground (arith, length-put_number k (n / 256))

pub bytes_write-eq :
    (bytes : Bytes)
    → length bytes ≤ Types.max_buffer_size
    → little_endian.bytes_write bytes ≡ some bytes
unfolding little_endian put_bytes
bytes_write-eq bytes h = rw (le→ltb Types.max_buffer_size (length bytes) h) refl
