-- ===== src/ActiveWindow/Slots.antt =====
-- The arithmetic of ring positions: which slot a sequence number falls on.
use native.Mathlib.Nat.{mod-lt, mod-eq_of_lt, mod-add-mod, mod-eq-sub-mod, add-mod_right, mul-add}
use native.Mathlib.Decide.{dec_lt}
use concord_rcanopus.Base.{
  ℕ, ◌+◌, ◌-◌, ◌*◌, ◌/◌, ◌%◌, ◌≤◌, ◌<◌, ◌≡◌, ◌⊎◌, inl, inr, arith, sym, ◌∙◌,
}

pub mod_step : (j n : ℕ) → 0 < n → (j % n + 1) % n ≡ (j + 1) % n
mod_step j n h = mod-add-mod j n 1

pub mod_wrap : (m n : ℕ) → 0 < n → (m + n) % n ≡ m % n
mod_wrap m n h = add-mod_right m n

-- Numbers less than one round apart fall on different slots.
pub mod_inj : (a b n : ℕ) → a ≤ b → b < a + n → a % n ≡ b % n → a ≡ b
mod_inj a b n le lt e = grind arith

mod_less : (a k n : ℕ) → k < n → n ≤ a % n + k → (a % n + k) % n ≡ a % n + k - n
mod_less a k n h reached = mod-eq-sub-mod reached ∙ mod-eq_of_lt (omega (arith, mod-lt a {m = n}))

-- A step of less than a round, with the wrap-around written out.
pub mod_add :
    (a k n : ℕ)
    → k < n
    → ((a % n + k < n) × ((a + k) % n ≡ a % n + k))
      ⊎ ((n ≤ a % n + k) × ((a + k) % n ≡ a % n + k - n))
mod_add a k n h = elim (dec_lt (a % n + k) n) [
  | yes below ↦ inl (below, sym (mod-add-mod a n k) ∙ mod-eq_of_lt below)
  | no reached ↦ inr (omega arith, sym (mod-add-mod a n k) ∙ mod_less a k n h (omega arith))
]

-- A multiple is its quotient times the divisor.
pub mul-div : (n r : ℕ) → n % r ≡ 0 → n ≡ r * (n / r)
mul-div n r h = grind arith

-- Among multiples of the resolution the order is that of the quotients.
pub div-le : (n m r : ℕ) → n ≤ m → n / r ≤ m / r
div-le n m r h = grind arith

pub div-lt : (n m r : ℕ) → 1 ≤ r → n % r ≡ 0 → m % r ≡ 0 → n < m → n / r < m / r
div-lt n m r some en em h = grind arith

mul_mono : (r a b : ℕ) → a ≤ b → r * a ≤ r * b
mul_mono r a b h = grind arith

mul_lt_cancel : (r a b c : ℕ) → r * a < r * b + r * c → a < b + c
mul_lt_cancel r a b c h = elim (dec_lt a (b + c)) [
  | yes below ↦ below
  | no above ↦ absurd (omega (arith, mul_mono r (b + c) a (omega arith), mul-add r b c))
]

mul_le_cancel : (r a b c : ℕ) → 1 ≤ r → r * b + r * c ≤ r * a → b + c ≤ a
mul_le_cancel r a b c some h = elim (dec_lt a (b + c)) [
  | yes below ↦
      absurd (omega (arith, mul_mono r (a + 1) (b + c) (omega arith), mul-add r b c, mul-add r a 1))
  | no above ↦ omega arith
]

pub div-lt-add :
    (n b w r : ℕ) → 1 ≤ r → n % r ≡ 0 → b % r ≡ 0 → w % r ≡ 0 → n < b + w → n / r < b / r + w / r
div-lt-add n b w r some en eb ew h =
    mul_lt_cancel r (n / r) (b / r) (w / r)
      (omega (arith, mul-div n r en, mul-div b r eb, mul-div w r ew))

pub add-le-div :
    (n b w r : ℕ) → 1 ≤ r → n % r ≡ 0 → b % r ≡ 0 → w % r ≡ 0 → b + w ≤ n → b / r + w / r ≤ n / r
add-le-div n b w r some en eb ew h =
    mul_le_cancel r (n / r) (b / r) (w / r) some
      (omega (arith, mul-div n r en, mul-div b r eb, mul-div w r ew))

pub div-pos : (w r : ℕ) → 1 ≤ r → r < w → 0 < w / r
div-pos w r some h = grind arith
