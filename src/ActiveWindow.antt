-- ===== src/ActiveWindow.antt =====
-- SequenceWithActiveWindow.hpp: a sliding window of items over sequence numbers, kept in a ring of
-- `WindowSize / Resolution` slots.
pub mod Slots
pub mod Inside
pub mod Ring
pub mod Advance
pub mod Access
mod Tests
use concord_rcanopus.Base.{
  ℕ, zero, suc, ◌+◌, ◌-◌, ◌/◌, ◌%◌, ◌≤◌, ◌<◌, ◌≡◌, Bool, true, false, not, ◌&&◌, Option, none, some,
  List, arith, ltb, leb, ◌==◌, if◌then◌else◌, length, get_elem?, modify, replicate, map, ◌>>=◌,
  ◌>>◌, assert,
}

-- The template's arguments; `reset_item` and `init_item` are those of `ItemFuncs`.
pub record Params {ℓ} (A : Type ℓ) : Type ℓ where
  pub window_size : ℕ
  pub resolution : ℕ
  pub init_item : A
  pub reset_item : A → A

-- The class's `static_assert`s.
pub record IsLegal {ℓ} {A : Type ℓ} (p : Params A) : Type 0 where
  pub size_least : 8 ≤ p.window_size
  pub size_below : p.window_size < 65535
  pub resolution_least : 1 ≤ p.resolution
  pub resolution_below : p.resolution < p.window_size
  pub divides : p.window_size % p.resolution ≡ 0

pub record Window {ℓ} (A : Type ℓ) : Type ℓ where
  pub beginning : ℕ
  pub items : List A

module _ {ℓ} {A : Type ℓ} (p : Params A) where
  abbrev pub num_items : ℕ
  num_items = p.window_size / p.resolution

  -- The constructor.
  unfoldable pub make : ℕ → Option (Window A)
  make first = do
    assert (first % p.resolution == 0)
    some (record { beginning = first; items = replicate num_items (p.reset_item p.init_item) })

  unfoldable pub inside : Window A → ℕ → Bool
  inside w n = leb w.beginning n && ltb n (w.beginning + p.window_size)

  abbrev pub slot : ℕ → ℕ
  slot n = (n / p.resolution) % num_items

  unfoldable pub get : Window A → ℕ → Option A
  get w n = do assert (n % p.resolution == 0); assert (inside w n); get_elem? w.items (slot n)

  -- A write through the reference that `get` returns.
  pub update : Window A → ℕ → (A → A) → Option (Window A)
  update w n f = do
    assert (n % p.resolution == 0)
    assert (inside w n)
    some (record w { items = modify w.items (slot n) f })

  unfoldable pub current_first : Window A → ℕ
  current_first w = w.beginning

  unfoldable pub current_last : Window A → ℕ
  current_last w = w.beginning + p.window_size - 1

  unfoldable pub reset_all : Window A → ℕ → Option (Window A)
  reset_all w first = do
    assert (first % p.resolution == 0)
    some (record { beginning = first; items = map p.reset_item w.items })

  -- The `for` loop of `advanceActiveWindow`, with the number of resets so far; `none` when the fuel
  -- runs out.
  pub reset_loop : ℕ → ℕ → ℕ → List A → ℕ → Option (List A × ℕ)
  reset_loop zero i stop items count = none
  reset_loop (suc fuel) i stop items count =
      let rest =
        reset_loop fuel ((i + 1) % num_items) stop (modify items i p.reset_item) (count + 1) in
      if i == stop then some (items, count) else rest

  abbrev pub reset_size : ℕ → ℕ → ℕ
  reset_size inactive_begin active_begin =
      let inactive_end = if ltb 0 active_begin then active_begin - 1 else num_items - 1 in
      if leb inactive_begin inactive_end
      then inactive_end - inactive_begin + 1
      else inactive_end + 1 + num_items - inactive_begin

  pub advance_partly : Window A → ℕ → Option (Window A)
  advance_partly w new_first = do
    let size = reset_size (slot w.beginning) (slot new_first)
    assert (ltb 0 size && ltb size num_items)
    (items, count) ← reset_loop (suc num_items) (slot w.beginning) (slot new_first) w.items 0
    assert (count == size)
    some (record { beginning = new_first; items = items })

  -- `advanceActiveWindow` behind its two assertions.
  pub advance_checked : Window A → ℕ → Option (Window A)
  advance_checked w new_first =
      if new_first == w.beginning
      then some w
      else if leb p.window_size (new_first - w.beginning)
      then reset_all w new_first
      else advance_partly w new_first

  pub advance : Window A → ℕ → Option (Window A)
  advance w new_first = do
    assert (new_first % p.resolution == 0)
    assert (leb w.beginning new_first)
    advance_checked w new_first
