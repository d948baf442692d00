-- ===== src/Bitmap/Buffer.antt =====
-- Bitmap::writeToBuffer and createBitmapFromBuffer.
use concord_rcanopus.Base.{
  ℕ, zero, suc, ◌+◌, ◌-◌, ◌*◌, ◌/◌, ◌%◌, ◌^◌, ◌≤◌, ◌<◌, ◌≡◌, inl, inr, refl, sym, ap, ◌∙◌, none,
  some, List, [], ◌∷◌, ◌++◌, arith, ltb, lt→ltb, not_lt→ltb, le→leb, Bool-cases, length,
  length-append,
}
use concord_rcanopus.Bitmap.{
  real_size, get, copy_bytes, drop_bytes, encode_word, decode_word, size_needed_in_buffer,
  block_bytes, write_to_buffer, read_block, create_behind_header, create_bitmap_from_buffer,
}
use concord_rcanopus.Bitmap.Access.{of_block, IsBlock}

copy_bytes_whole :
    (k : ℕ) (block rest : List ℕ) → length block ≡ k → copy_bytes k (block ++ rest) ≡ some block
unfolding copy_bytes
copy_bytes_whole zero [] rest h = refl
copy_bytes_whole zero (x ∷ xs) rest h = absurd (omega arith)
copy_bytes_whole (suc k) [] rest h = absurd (omega arith)
copy_bytes_whole (suc k) (x ∷ xs) rest h = rw (copy_bytes_whole k xs rest (omega arith)) refl

append_nil : (xs : List ℕ) → xs ++ [] ≡ xs
append_nil [] = refl
append_nil (x ∷ xs) = rw (append_nil xs) refl

copy_bytes-length : (k : ℕ) (block : List ℕ) → length block ≡ k → copy_bytes k block ≡ some block
copy_bytes-length k block h =
    ap (copy_bytes k) (sym (append_nil block)) ∙ copy_bytes_whole k block [] h

length-drop_bytes : (k : ℕ) (xs : List ℕ) → length (drop_bytes k xs) ≡ length xs - k
unfolding drop_bytes
length-drop_bytes zero xs = omega arith
length-drop_bytes (suc k) [] = omega arith
length-drop_bytes (suc k) (x ∷ xs) = omega (arith, length-drop_bytes k xs)

word_value :
    (n : ℕ)
    → n < 2 ^ 32
    → n % 256
        + 256
          * ((n / 256) % 256 + 256 * ((n / 256 / 256) % 256 + 256 * ((n / 256 / 256 / 256) % 256)))
      ≡ n
word_value n h = omega arith

decode_word-encode_word :
    (n : ℕ) (rest : List ℕ) → n < 2 ^ 32 → decode_word (encode_word n ++ rest) ≡ some (n, rest)
unfolding decode_word encode_word
decode_word-encode_word n rest h = ap (λ k. some (k, rest)) (word_value n h)

length-encode_word : (n : ℕ) (rest : List ℕ) → length (encode_word n ++ rest) ≡ 4 + length rest
unfolding encode_word
length-encode_word n rest = omega arith

written : ℕ → List ℕ → List ℕ → List ℕ
written n block buffer = encode_word n ++ (block ++ drop_bytes (4 + real_size n) buffer)

length-written :
    (n : ℕ) (block buffer : List ℕ)
    → length block ≡ real_size n
    → 4 + real_size n ≤ length buffer
    → length (written n block buffer) ≡ length buffer
unfolding written
length-written n block buffer size fits = omega (
  arith,
  length-encode_word n (block ++ drop_bytes (4 + real_size n) buffer),
  length-append block (drop_bytes (4 + real_size n) buffer),
  length-drop_bytes (4 + real_size n) buffer,
)

unfold_written :
    (n : ℕ) (block buffer : List ℕ)
    → IsBlock n block
    → decode_word (written n block buffer) ≡ some (n, block ++ drop_bytes (4 + real_size n) buffer)
unfolding written
unfold_written n block buffer ok =
    decode_word-encode_word n (block ++ drop_bytes (4 + real_size n) buffer)
      (omega (arith, ok.no_wrap))

read_accepted :
    (n buffer_length : ℕ) (block body : List ℕ)
    → 1 ≤ n
    → 4 + real_size n ≤ buffer_length
    → copy_bytes (real_size n) body ≡ some block
    → create_behind_header buffer_length (some (n, body))
      ≡ some (some (of_block n block), 4 + real_size n)
unfolding create_behind_header read_block
read_accepted n buffer_length block body some_bits fits copied =
    rw (not_lt→ltb buffer_length (4 + real_size n) (omega arith), copied, lt→ltb 0 n (omega arith))
      refl

read_written :
    (n : ℕ) (block buffer : List ℕ)
    → IsBlock n block
    → 1 ≤ n
    → 4 + real_size n ≤ length buffer
    → create_bitmap_from_buffer (written n block buffer)
      ≡ some (some (of_block n block), 4 + real_size n)
unfolding create_bitmap_from_buffer
read_written n block buffer ok some_bits fits =
    ap (create_behind_header (length (written n block buffer))) (unfold_written n block buffer ok)
    ∙ read_accepted n (length (written n block buffer)) block
        (block ++ drop_bytes (4 + real_size n) buffer) some_bits
        (omega (arith, length-written n block buffer ok.size fits))
        (copy_bytes_whole (real_size n) block (drop_bytes (4 + real_size n) buffer) ok.size)

-- Writing a non-empty bitmap whose size does not wrap around into a buffer that is long enough
-- succeeds, keeps the length of the buffer and reports the size needed; the bitmap created from the
-- buffer is the same one, with the same size reported.
pub create_bitmap_from_buffer-write_to_buffer :
    (n : ℕ) (block buffer : List ℕ)
    → IsBlock n block
    → 1 ≤ n
    → 4 + real_size n ≤ length buffer
    → (out : List ℕ) × (write_to_buffer (of_block n block) buffer ≡ some (out, 4 + real_size n))
      × (length out ≡ length buffer)
      × (create_bitmap_from_buffer out ≡ some (some (of_block n block), 4 + real_size n))
unfolding write_to_buffer size_needed_in_buffer block_bytes written
create_bitmap_from_buffer-write_to_buffer n block buffer ok some_bits fits = (
  written n block buffer,
  rw (le→leb (4 + real_size n) (length buffer) fits, copy_bytes-length (real_size n) block ok.size)
      refl,
  length-written n block buffer ok.size fits,
  read_written n block buffer ok some_bits fits,
)

real_size_wraps : (n : ℕ) → 2 ^ 32 - 7 ≤ n → n < 2 ^ 32 → real_size n ≡ 0
unfolding real_size
real_size_wraps n low high = omega arith

no_byte : (n i : ℕ) → get (of_block n []) i ≡ none
unfolding get
no_byte n i = elim (Bool-cases (ltb i n)) [ inl e ↦ rw e refl | inr e ↦ rw e refl ]

-- A header that announces at least 2^32 - 7 bits makes the size wrap around to 0: the buffer is
-- accepted, whatever its length, and gives a bitmap of that many bits without a byte, so that
-- reading any of its bits goes out of bounds.
pub create_bitmap_from_buffer_wraps :
    (n i : ℕ) (buffer body : List ℕ)
    → decode_word buffer ≡ some (n, body)
    → 4 ≤ length buffer
    → 2 ^ 32 - 7 ≤ n
    → n < 2 ^ 32
    → (create_bitmap_from_buffer buffer ≡ some (some (of_block n []), 4))
      × (get (of_block n []) i ≡ none)
unfolding create_bitmap_from_buffer copy_bytes
create_bitmap_from_buffer_wraps n i buffer body header long low high =
    let empty = real_size_wraps n low high in
    (
      ap (create_behind_header (length buffer)) header
          ∙ read_accepted n (length buffer) [] body (omega arith) (omega (arith, empty))
              (ap (λ k. copy_bytes k body) empty)
          ∙ ap (λ k. some (some (of_block n []), 4 + k)) empty,
      no_byte n i,
    )
