-- ===== src/Bitmap/Bytes.antt =====
-- Setting and clearing one bit of a byte, seen from each bit of it.
use concord_rcanopus.Base.{
  ℕ, zero, suc, ◌-◌, ◌^◌, ◌<◌, ◌≡◌, refl, Bool, true, false, not, ◌&&◌, arith, bit_and, bit_or, ltb,
  ◌==◌, if◌then◌else◌, ltb→lt,
}

-- Whether bit `k` of a byte is set.
abbrev pub has_bit : ℕ → ℕ → Bool
has_bit x k = not (bit_and x (2 ^ k) == 0)

same : Bool → Bool → Bool
same true b = b
same false b = not b

same→eq : (a b : Bool) → same a b ≡ true → a ≡ b
unfolding same
same→eq true true h = refl
same→eq true false h = absurd (cc h)
same→eq false true h = absurd (cc h)
same→eq false false h = refl

-- A test holds of every number below a bound.
every : ℕ → (ℕ → Bool) → Bool
every zero test = true
every (suc n) test = test n && every n test

every-holds : (n : ℕ) (test : ℕ → Bool) (x : ℕ) → every n test ≡ true → x < n → test x ≡ true
unfolding every
every-holds zero test x h below = absurd (omega arith)
every-holds (suc n) test x h below = ground (arith, every-holds n test x)

set_table :
    every 256 (λ x. every 8 (λ k.
      every 8 (λ l. same (has_bit (bit_or x (2 ^ k)) l) (if k == l then true else has_bit x l))))
    ≡ true
unfolding every same
set_table = refl

reset_table :
    every 256 (λ x. every 8 (λ k.
      every 8
        (λ l. same (has_bit (bit_and x (0xFF - 2 ^ k)) l) (if k == l then false else has_bit x l))))
    ≡ true
unfolding every same
reset_table = refl

byte_table :
    every 256 (λ x. every 8 (λ k. ltb (bit_or x (2 ^ k)) 256 && ltb (bit_and x (0xFF - 2 ^ k)) 256))
    ≡ true
unfolding every
byte_table = refl

pub has_bit-bit_or :
    (x k l : ℕ)
    → x < 256
    → k < 8
    → l < 8
    → has_bit (bit_or x (2 ^ k)) l ≡ (if k == l then true else has_bit x l)
has_bit-bit_or x k l hx hk hl =
    same→eq _ _ (every-holds 8 _ l (every-holds 8 _ k (every-holds 256 _ x set_table hx) hk) hl)

pub has_bit-bit_and :
    (x k l : ℕ)
    → x < 256
    → k < 8
    → l < 8
    → has_bit (bit_and x (0xFF - 2 ^ k)) l ≡ (if k == l then false else has_bit x l)
has_bit-bit_and x k l hx hk hl =
    same→eq _ _ (every-holds 8 _ l (every-holds 8 _ k (every-holds 256 _ x reset_table hx) hk) hl)

both : (a b : Bool) → a && b ≡ true → (a ≡ true) × (b ≡ true)
both true true h = (refl, refl)
both true false h = absurd (cc h)
both false b h = absurd (cc h)

bytes_stay :
    (x k : ℕ) → x < 256 → k < 8 → (bit_or x (2 ^ k) < 256) × (bit_and x (0xFF - 2 ^ k) < 256)
bytes_stay x k hx hk =
    let (a, b) = both _ _ (every-holds 8 _ k (every-holds 256 _ x byte_table hx) hk) in
    (ltb→lt _ 256 a, ltb→lt _ 256 b)

pub bit_or-byte : (x k : ℕ) → x < 256 → k < 8 → bit_or x (2 ^ k) < 256
bit_or-byte x k hx hk = (bytes_stay x k hx hk).0

pub bit_and-byte : (x k : ℕ) → x < 256 → k < 8 → bit_and x (0xFF - 2 ^ k) < 256
bit_and-byte x k hx hk = (bytes_stay x k hx hk).1
