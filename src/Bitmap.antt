-- ===== src/Bitmap.antt =====
-- Bitmap.hpp: a vector of bits packed in bytes, and its form in a message.
pub mod Bytes
pub mod Access
pub mod Buffer
mod Tests
use concord_rcanopus.Base.{
  ℕ, zero, suc, ◌+◌, ◌-◌, ◌*◌, ◌/◌, ◌%◌, ◌^◌, ◌≤◌, ◌<◌, ◌≡◌, Bool, true, false, not, Option, none,
  some, List, [], ◌∷◌, ◌++◌, arith, bit_and, bit_or, ltb, leb, ◌==◌, if◌then◌else◌, length,
  get_elem?, set, replicate, ◌>>=◌, ◌>>◌, assert,
}

-- `p_` is `none` for the null pointer, else the allocated block.
pub record Bitmap : Type 0 where
  pub num_bits : ℕ
  pub p : Option (List ℕ)

-- The sum is taken in 32 bits.
pub real_size : ℕ → ℕ
real_size nbits = ((nbits + 7) % 2 ^ 32) / 8

pub zero_all : Bitmap → Option Bitmap
zero_all b = elim b.p [
  | none ↦ some b
  | some block ↦ do
    assert (ltb 0 (real_size b.num_bits))
    some (record b { p = some (replicate (real_size b.num_bits) 0) })
]

-- The constructor; `junk` fills what malloc returns, which is a block even for no bytes.
unfoldable pub make : ℕ → ℕ → Option Bitmap
make junk n =
    if ltb 0 n
    then zero_all (record { num_bits = n; p = some (replicate (real_size n) junk) })
    else some (record { num_bits = n; p = none })

abbrev pub byte_mask : ℕ → ℕ
byte_mask i = 2 ^ (i % 8)

abbrev pub reset_mask : ℕ → ℕ
reset_mask i = 0xFF - 2 ^ (i % 8)

unfoldable pub get : Bitmap → ℕ → Option Bool
get b i = do
  assert (ltb i b.num_bits)
  block ← b.p
  byte ← get_elem? block (i / 8)
  some (not (bit_and byte (byte_mask i) == 0))

pub set_bit : Bitmap → ℕ → Option Bitmap
set_bit b i = do
  assert (ltb i b.num_bits)
  block ← b.p
  byte ← get_elem? block (i / 8)
  some (record b { p = some (set block (i / 8) (bit_or byte (byte_mask i))) })

pub reset_bit : Bitmap → ℕ → Option Bitmap
reset_bit b i = do
  assert (ltb i b.num_bits)
  block ← b.p
  byte ← get_elem? block (i / 8)
  some (record b { p = some (set block (i / 8) (bit_and byte (reset_mask i))) })

-- `memcpy` from a block: a fault when the block ends early.
pub copy_bytes : ℕ → List ℕ → Option (List ℕ)
copy_bytes zero block = some []
copy_bytes (suc n) [] = none
copy_bytes (suc n) (x ∷ xs) = do rest ← copy_bytes n xs; some (x ∷ rest)

pub drop_bytes : ℕ → List ℕ → List ℕ
drop_bytes zero xs = xs
drop_bytes (suc n) [] = []
drop_bytes (suc n) (x ∷ xs) = drop_bytes n xs

-- The number at the front of the buffer, on a little-endian machine.
pub encode_word : ℕ → List ℕ
encode_word n = n % 256 ∷ (n / 256) % 256 ∷ (n / 256 / 256) % 256 ∷ (n / 256 / 256 / 256) % 256 ∷ []

pub decode_word : List ℕ → Option (ℕ × List ℕ)
decode_word (a ∷ b ∷ c ∷ d ∷ rest) = some (a + 256 * (b + 256 * (c + 256 * d)), rest)
decode_word xs = none

pub size_needed_in_buffer : Bitmap → ℕ
size_needed_in_buffer b = 4 + real_size b.num_bits

-- The bytes that `memcpy` reads; copying none from the null pointer is harmless.
pub block_bytes : Option (List ℕ) → ℕ → Option (List ℕ)
block_bytes none zero = some []
block_bytes none (suc n) = none
block_bytes (some block) n = copy_bytes n block

-- The buffer after the write, and the actual size.
pub write_to_buffer : Bitmap → List ℕ → Option (List ℕ × ℕ)
write_to_buffer b buffer = do
  assert (leb (size_needed_in_buffer b) (length buffer))
  bytes ← block_bytes b.p (real_size b.num_bits)
  some (
    encode_word b.num_bits ++ (bytes ++ drop_bytes (size_needed_in_buffer b) buffer),
    size_needed_in_buffer b,
  )

-- The bitmap behind a header whose size fits the buffer.
pub read_block : ℕ → List ℕ → Option Bitmap
read_block n body = do
  bytes ← copy_bytes (real_size n) body
  some (
      if ltb 0 n
      then record { num_bits = n; p = some bytes }
      else record { num_bits = 0; p = none })

-- The inner option is the returned pointer, with the actual size.
pub create_behind_header : ℕ → Option (ℕ × List ℕ) → Option (Option Bitmap × ℕ)
create_behind_header buffer_length none = some (none, 0)
create_behind_header buffer_length (some (n, body)) =
    if ltb buffer_length (4 + real_size n)
    then some (none, 0)
    else (do b ← read_block n body; some (some b, 4 + real_size n))

pub create_bitmap_from_buffer : List ℕ → Option (Option Bitmap × ℕ)
create_bitmap_from_buffer buffer = create_behind_header (length buffer) (decode_word buffer)
