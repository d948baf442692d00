-- ===== src/Bitmap/Tests.antt =====
-- Runs of Bitmap at small inputs.
use concord_rcanopus.Base.{
  ℕ, zero, suc, ◌+◌, ◌≡◌, ◌<◌, refl, true, none, some, List, [], ◌∷◌, arith, ◌==◌, if◌then◌else◌,
  length, replicate,
}
use concord_rcanopus.Bitmap.{
  real_size, make, zero_all, get, set_bit, write_to_buffer, create_bitmap_from_buffer, decode_word,
}
use concord_rcanopus.Bitmap.Access.{of_block, AreBytes, IsBlock, set_bit-get}
use concord_rcanopus.Bitmap.Buffer.{
  create_bitmap_from_buffer-write_to_buffer, create_bitmap_from_buffer_wraps,
}

abbrev two_bytes : List ℕ
two_bytes = 5 ∷ 3 ∷ []

two_bytes-AreBytes : AreBytes two_bytes
unfolding AreBytes
two_bytes-AreBytes zero x e = ground arith
two_bytes-AreBytes (suc zero) x e = ground arith
two_bytes-AreBytes (suc (suc i)) x e = absurd (cc e)

two_bytes-IsBlock : IsBlock 11 two_bytes
unfolding real_size
two_bytes-IsBlock = record { no_wrap = omega arith; size = refl; bytes = two_bytes-AreBytes }

fresh : make 77 11 ≡ some (of_block 11 (0 ∷ 0 ∷ []))
unfolding make zero_all real_size
fresh = refl

set_bit-get_example :
    (new : List ℕ) × (set_bit (of_block 11 two_bytes) 10 ≡ some (of_block 11 new))
    × IsBlock 11 new
    × ((j : ℕ)
        → j < 11
        → get (of_block 11 new) j ≡ (if 10 == j then some true else get (of_block 11 two_bytes) j))
set_bit-get_example = set_bit-get 11 10 two_bytes two_bytes-IsBlock (omega arith)

long_enough : 4 + real_size 11 < 8
unfolding real_size
long_enough = omega arith

create_bitmap_from_buffer-write_to_buffer_example :
    (out : List ℕ) × (write_to_buffer (of_block 11 two_bytes) (replicate 8 9)
      ≡ some (out, 4 + real_size 11))
    × (length out ≡ 8)
    × (create_bitmap_from_buffer out ≡ some (some (of_block 11 two_bytes), 4 + real_size 11))
create_bitmap_from_buffer-write_to_buffer_example =
    create_bitmap_from_buffer-write_to_buffer 11 two_bytes (replicate 8 9) two_bytes-IsBlock
      (omega arith) (omega (arith, long_enough))

huge_header : decode_word (255 ∷ 255 ∷ 255 ∷ 255 ∷ []) ≡ some (4294967295, [])
unfolding decode_word
huge_header = refl

create_bitmap_from_buffer_wraps_example :
    (create_bitmap_from_buffer (255 ∷ 255 ∷ 255 ∷ 255 ∷ [])
      ≡ some (some (of_block 4294967295 []), 4))
    × (get (of_block 4294967295 []) 0 ≡ none)
create_bitmap_from_buffer_wraps_example =
    create_bitmap_from_buffer_wraps 4294967295 0 (255 ∷ 255 ∷ 255 ∷ 255 ∷ []) [] huge_header
      (omega arith) (omega arith) (omega arith)
