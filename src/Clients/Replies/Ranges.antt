-- ===== src/Clients/Replies/Ranges.antt =====
-- How many reserved pages a reply takes.
use native.Mathlib.Nat.{mod-lt, add-mul, zero-mod, zero-div}
use native.Mathlib.Decide.{dec_lt}
use concord_rcanopus.Base.{
  ℕ, zero, suc, ◌+◌, ◌-◌, ◌*◌, ◌/◌, ◌%◌, ◌≤◌, ◌<◌, ◌≡◌, inl, inr, false, arith, ◌==◌, eq→==, ==→eq,
  Bool-cases,
}
use concord_rcanopus.Clients.{pages_of}
use concord_rcanopus.Clients.Replies.{last_page_size}

quotient_pos : (s g : ℕ) → 1 ≤ s → s % g ≡ 0 → 1 ≤ s / g
quotient_pos s g h e = grind arith

whole_pages : (s g : ℕ) → 1 ≤ s → s % g ≡ 0 → s ≡ (s / g - 1) * g + g
whole_pages s g h e = grind (arith, quotient_pos s g h e)

part_pages : (s g : ℕ) → s ≡ s / g * g + s % g
part_pages s g = grind arith

nonzero : (n : ℕ) → (n == 0) ≡ false → 1 ≤ n
nonzero zero h = absurd (cc h)
nonzero (suc n) h = omega arith

add_sub : (n : ℕ) → n + 1 - 1 ≡ n
add_sub n = omega arith

-- A message of `s` bytes fills all of its pages but the last, and that one not beyond its size.
pub pages_of-last_page_size :
    (s g : ℕ)
    → 1 ≤ g
    → 1 ≤ s
    → (s ≡ (pages_of s g - 1) * g + last_page_size s g)
      × (1 ≤ pages_of s g)
      × (1 ≤ last_page_size s g)
      × (last_page_size s g ≤ g)
unfolding pages_of last_page_size
pages_of-last_page_size s g some_page some_bytes = elim (Bool-cases (s % g == 0)) [
  | inl whole ↦
      let e : s % g ≡ 0 = ==→eq (s % g) 0 whole in
      rw whole (whole_pages s g some_bytes e, quotient_pos s g some_bytes e, some_page, omega arith)
  | inr more ↦
      rw (more, add_sub (s / g))
        (
          part_pages s g,
          omega arith,
          nonzero (s % g) more,
          omega (arith, mod-lt s {m = g} (omega arith)),
        )
]

product_le : (a b g : ℕ) → a ≤ b → a * g ≤ b * g
product_le a b g h = grind arith

pred_product : (q g : ℕ) → 1 ≤ q → (q - 1) * g + g ≡ q * g
pred_product zero g h = absurd (omega arith)
pred_product (suc q) g h = grind (arith, add-mul q 1 g)

no_pages : (g : ℕ) → pages_of 0 g ≡ 0
unfolding pages_of
no_pages g = rw (eq→== (0 % g) 0 (zero-mod g)) (zero-div g)

pub pages_of-le : (s t g : ℕ) → 1 ≤ g → s ≤ t → pages_of s g ≤ pages_of t g
pages_of-le zero t g some_page h = rw (no_pages g) (omega arith)
pages_of-le (suc s) t g some_page h = elim (dec_lt (pages_of t g) (pages_of (suc s) g)) [
  | no above ↦ omega arith
  | yes below ↦
      let (es, ps, ls, us) = pages_of-last_page_size (suc s) g some_page (omega arith) in
      let (et, pt, lt, ut) = pages_of-last_page_size t g some_page (omega arith) in
      absurd (
        omega (
          arith,
          pred_product (pages_of t g) g pt,
          product_le (pages_of t g) (pages_of (suc s) g - 1) g (omega arith),
        ))
]

-- A page of an earlier block of pages lies before those of a later one.
pub apart : (per i j a b : ℕ) → i < j → a < per → b < per → i * per + a < j * per + b
apart per i j a b h ha hb = grind arith
