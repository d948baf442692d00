-- ===== src/ActiveWindow/Inside.antt =====
-- The active window as a range of sequence numbers, and its well-formedness.
use concord_rcanopus.Base.{ℕ, ◌+◌, ◌%◌, ◌≤◌, ◌<◌, ◌≡◌, true, false, arith, length, get_elem?}
use concord_rcanopus.ActiveWindow.{Params, Window, num_items, slot, inside, get}

-- The window starts on the resolution and has all its slots.
pub record IsAligned {ℓ} {A : Type ℓ} (p : Params A) (w : Window A) : Type 0 where
  pub on_grid : w.beginning % p.resolution ≡ 0
  pub full : length w.items ≡ num_items p

module _ {ℓ} {A : Type ℓ} (p : Params A) where
  pub inside→le :
      (w : Window A) (n : ℕ)
      → inside p w n ≡ true
      → (w.beginning ≤ n) × (n < w.beginning + p.window_size)
  unfolding inside
  inside→le w n h = ground arith

  pub outside→le :
      (w : Window A) (n : ℕ)
      → inside p w n ≡ false
      → w.beginning ≤ n
      → w.beginning + p.window_size ≤ n
  unfolding inside
  outside→le w n h from = ground arith

  pub far→outside : (w : Window A) (n : ℕ) → w.beginning + p.window_size ≤ n → inside p w n ≡ false
  unfolding inside
  far→outside w n far = ground arith

  pub get-inside :
      (w : Window A) (n : ℕ)
      → n % p.resolution ≡ 0
      → inside p w n ≡ true
      → get p w n ≡ get_elem? w.items (slot p n)
  unfolding get
  get-inside w n e h = ground arith
