-- ===== src/Bitmap/Access.antt =====
-- Bitmap::get, set and reset, over the whole bitmap.
use native.Mathlib.Nat.{mod-lt}
use concord_rcanopus.Base.{
  ℕ, zero, suc, ◌+◌, ◌/◌, ◌%◌, ◌^◌, ◌<◌, ◌≡◌, ◌≢◌, inl, inr, refl, sym, ap, ◌∙◌, Bool, true, false,
  some, List, [], ◌∷◌, arith, bit_and, bit_or, ◌==◌, if◌then◌else◌, lt→ltb, eq→==, ne→==, ==→eq,
  Bool-cases, length, get_elem?, set, get_elem?_lt, length-set,
}
use concord_rcanopus.Bitmap.{Bitmap, real_size, byte_mask, reset_mask, get, set_bit, reset_bit}
use concord_rcanopus.Bitmap.Bytes.{
  has_bit, has_bit-bit_or, has_bit-bit_and, bit_or-byte, bit_and-byte,
}

abbrev pub of_block : ℕ → List ℕ → Bitmap
of_block n block = record { num_bits = n; p = some block }

unfoldable pub AreBytes : List ℕ → Type 0
AreBytes block = (i x : ℕ) → get_elem? block i ≡ some x → x < 256

-- A block of bytes for `n` bits, where the size does not wrap around.
pub record IsBlock (n : ℕ) (block : List ℕ) : Type 0 where
  pub no_wrap : n + 7 < 2 ^ 32
  pub size : length block ≡ real_size n
  pub bytes : AreBytes block

some_inj : (x y : ℕ) → some x ≡ some y → x ≡ y
some_inj x y e = cc e

different : (i j : ℕ) → (i == j) ≡ false → i ≢ j
different i j h e = absurd (cc (h, eq→== i j e))

real_size_lem : (n : ℕ) → n + 7 < 2 ^ 32 → real_size n ≡ (n + 7) / 8
unfolding real_size
real_size_lem n h = omega arith

byte_inside : (n i : ℕ) (block : List ℕ) → IsBlock n block → i < n → i / 8 < length block
byte_inside n i block ok h = omega (arith, real_size_lem n ok.no_wrap, ok.size)

get_elem?-set_same : (xs : List ℕ) (i v : ℕ) → i < length xs → get_elem? (set xs i v) i ≡ some v
get_elem?-set_same [] i v h = absurd (omega arith)
get_elem?-set_same (x ∷ xs) zero v h = refl
get_elem?-set_same (x ∷ xs) (suc i) v h = get_elem?-set_same xs i v (omega arith)

get_elem?-set_other : (xs : List ℕ) (i j v : ℕ) → i ≢ j → get_elem? (set xs i v) j ≡ get_elem? xs j
get_elem?-set_other [] i j v h = refl
get_elem?-set_other (x ∷ xs) zero zero v h = absurd (h refl)
get_elem?-set_other (x ∷ xs) zero (suc j) v h = refl
get_elem?-set_other (x ∷ xs) (suc i) zero v h = refl
get_elem?-set_other (x ∷ xs) (suc i) (suc j) v h = get_elem?-set_other xs i j v (omega arith)

set-AreBytes : (block : List ℕ) (i v : ℕ) → AreBytes block → v < 256 → AreBytes (set block i v)
unfolding AreBytes
set-AreBytes [] i v ok small j x e = absurd (cc e)
set-AreBytes (b ∷ bs) zero v ok small zero x e = omega (arith, some_inj v x e)
set-AreBytes (b ∷ bs) zero v ok small (suc j) x e = ok (suc j) x e
set-AreBytes (b ∷ bs) (suc i) v ok small zero x e = ok 0 x e
set-AreBytes (b ∷ bs) (suc i) v ok small (suc j) x e =
    set-AreBytes bs i v (λ k y h. ok (suc k) y h) small j x e

set-IsBlock : (n i v : ℕ) (block : List ℕ) → IsBlock n block → v < 256 → IsBlock n (set block i v)
set-IsBlock n i v block ok small = record {
  no_wrap = ok.no_wrap;
  size = length-set block i v ∙ ok.size;
  bytes = set-AreBytes block i v ok.bytes small;
}

get-of_block :
    (n i x : ℕ) (block : List ℕ)
    → i < n
    → get_elem? block (i / 8) ≡ some x
    → get (of_block n block) i ≡ some (has_bit x (i % 8))
unfolding get
get-of_block n i x block h e = rw (lt→ltb i n h, e) refl

same_bit : (i j : ℕ) → i / 8 ≡ j / 8 → (i % 8 == j % 8) ≡ (i == j)
same_bit i j h = elim (Bool-cases (i == j)) [
  | inl e ↦ rw e (eq→== (i % 8) (j % 8) (omega (arith, ==→eq i j e)))
  | inr e ↦ rw e (ne→== (i % 8) (j % 8) (λ f. absurd (different i j e (omega arith))))
]

some_if : (b t u : Bool) → some (if b then t else u) ≡ (if b then some t else some u)
some_if true t u = refl
some_if false t u = refl

same_byte :
    (n i j x v : ℕ) (t : Bool) (block : List ℕ)
    → IsBlock n block
    → i < n
    → j < n
    → i / 8 ≡ j / 8
    → get_elem? block (i / 8) ≡ some x
    → has_bit v (j % 8) ≡ (if i % 8 == j % 8 then t else has_bit x (j % 8))
    → get (of_block n (set block (i / 8) v)) j
      ≡ (if i == j then some t else get (of_block n block) j)
same_byte n i j x v t block ok hi hj here e bits =
    let old = get-of_block n j x block hj (ap (get_elem? block) (sym here) ∙ e) in
    let written =
      ap (get_elem? (set block (i / 8) v)) (sym here)
      ∙ get_elem?-set_same block (i / 8) v (byte_inside n i block ok hi) in
    let new = get-of_block n j v (set block (i / 8) v) hj written in
    rw (new, old, bits, same_bit i j here) (some_if (i == j) t (has_bit x (j % 8)))

other_byte :
    (n i j v : ℕ) (t : Bool) (block : List ℕ)
    → IsBlock n block
    → j < n
    → i / 8 ≢ j / 8
    → get (of_block n (set block (i / 8) v)) j
      ≡ (if i == j then some t else get (of_block n block) j)
other_byte n i j v t block ok hj apart =
    let (y, ey) = get_elem?_lt block (j / 8) (byte_inside n j block ok hj) in
    let old = get-of_block n j y block hj ey in
    let new =
      get-of_block n j y (set block (i / 8) v) hj
        (get_elem?-set_other block (i / 8) (j / 8) v apart ∙ ey) in
    rw (new, old, ne→== i j (λ same. apart (ap (λ k. k / 8) same))) refl

-- What the bits are after a byte is written whose bits differ in one place.
get_written :
    (n i j x v : ℕ) (t : Bool) (block : List ℕ)
    → IsBlock n block
    → i < n
    → j < n
    → get_elem? block (i / 8) ≡ some x
    → ((l : ℕ) → l < 8 → has_bit v l ≡ (if i % 8 == l then t else has_bit x l))
    → get (of_block n (set block (i / 8) v)) j
      ≡ (if i == j then some t else get (of_block n block) j)
get_written n i j x v t block ok hi hj e bits = elim (Bool-cases (i / 8 == j / 8)) [
  | inl here ↦
      same_byte n i j x v t block ok hi hj (==→eq (i / 8) (j / 8) here) e
        (bits (j % 8) (omega arith))
  | inr apart ↦ other_byte n i j v t block ok hj (different (i / 8) (j / 8) apart)
]

-- Setting bit `i` of a bitmap whose size does not wrap around succeeds and leaves a bitmap of the
-- same size, in which bit `i` is set and every other bit is what it was.
pub set_bit-get :
    (n i : ℕ) (block : List ℕ)
    → IsBlock n block
    → i < n
    → (new : List ℕ) × (set_bit (of_block n block) i ≡ some (of_block n new))
      × IsBlock n new
      × ((j : ℕ)
          → j < n
          → get (of_block n new) j ≡ (if i == j then some true else get (of_block n block) j))
unfolding set_bit AreBytes
set_bit-get n i block ok hi =
    let (x, e) = get_elem?_lt block (i / 8) (byte_inside n i block ok hi) in
    let small = ok.bytes (i / 8) x e in
    let mask = mod-lt i {m = 8} (omega arith) in
    (
      set block (i / 8) (bit_or x (byte_mask i)),
      rw (lt→ltb i n hi, e) refl,
      set-IsBlock n (i / 8) (bit_or x (byte_mask i)) block ok (bit_or-byte x (i % 8) small mask),
      (λ j hj.
          get_written n i j x (bit_or x (byte_mask i)) true block ok hi hj e
            (λ l hl. has_bit-bit_or x (i % 8) l small mask hl)),
    )

-- Resetting bit `i` of a bitmap whose size does not wrap around succeeds and leaves a bitmap of the
-- same size, in which bit `i` is clear and every other bit is what it was.
pub reset_bit-get :
    (n i : ℕ) (block : List ℕ)
    → IsBlock n block
    → i < n
    → (new : List ℕ) × (reset_bit (of_block n block) i ≡ some (of_block n new))
      × IsBlock n new
      × ((j : ℕ)
          → j < n
          → get (of_block n new) j ≡ (if i == j then some false else get (of_block n block) j))
unfolding reset_bit AreBytes
reset_bit-get n i block ok hi =
    let (x, e) = get_elem?_lt block (i / 8) (byte_inside n i block ok hi) in
    let small = ok.bytes (i / 8) x e in
    let mask = mod-lt i {m = 8} (omega arith) in
    (
      set block (i / 8) (bit_and x (reset_mask i)),
      rw (lt→ltb i n hi, e) refl,
      set-IsBlock n (i / 8) (bit_and x (reset_mask i)) block ok (bit_and-byte x (i % 8) small mask),
      (λ j hj.
          get_written n i j x (bit_and x (reset_mask i)) false block ok hi hj e
            (λ l hl. has_bit-bit_and x (i % 8) l small mask hl)),
    )
