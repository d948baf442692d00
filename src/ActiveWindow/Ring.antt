-- ===== src/ActiveWindow/Ring.antt =====
-- The loop that resets the slots which leave the window.
use native.Mathlib.Nat.{mod-lt, add-zero}
use native.Mathlib.Decide.{dec_lt}
use concord_rcanopus.Base.{
  ℕ, zero, suc, ◌+◌, ◌%◌, ◌≤◌, ◌<◌, ◌≡◌, ◌≢◌, refl, ap, ◌∙◌, inl, inr, Option, none, some, List,
  arith, length, get_elem?, modify, length-modify, get_elem?-modify_self, get_elem?-modify_ne,
  ne→==, eq→==, Option-cases,
}
use concord_rcanopus.ActiveWindow.{Params, num_items, reset_loop, reset_size}
use concord_rcanopus.ActiveWindow.Slots.{mod_step, mod_wrap, mod_inj, mod_add}

-- The image of an item that may be missing.
abbrev pub reset? {ℓ} : {A : Type ℓ} → (A → A) → Option A → Option A
reset? f none = none
reset? f (some a) = some (f a)

module _ {ℓ} {A : Type ℓ} (p : Params A) (some_items : 0 < num_items p) where
  -- What the loop leaves from position `j`, `k` positions before its stop: the items of the
  -- positions `j` to `j + k - 1` are reset, once each, and no other changes.
  abbrev pub Cleared : ℕ → ℕ → List A → List A → Type ℓ
  Cleared j k old new =
      (length new ≡ length old)
      × ((m : ℕ)
          → j + k ≤ m
          → m < j + num_items p
          → get_elem? new (m % num_items p) ≡ get_elem? old (m % num_items p))
      × ((m : ℕ)
          → j ≤ m
          → m < j + k
          → get_elem? new (m % num_items p) ≡ reset? p.reset_item (get_elem? old (m % num_items p)))

  get-modify_reset :
      (items : List A) (i : ℕ)
      → get_elem? (modify items i p.reset_item) i ≡ reset? p.reset_item (get_elem? items i)
  get-modify_reset items i = elim (Option-cases (get_elem? items i)) [
    | inl e ↦ get_elem?-modify_self items i p.reset_item ∙ rw e
    | inr (x, e) ↦ get_elem?-modify_self items i p.reset_item ∙ rw e
  ]

  Cleared-suc :
      (j k : ℕ) (old new : List A)
      → suc k < num_items p
      → Cleared (j + 1) k (modify old (j % num_items p) p.reset_item) new
      → Cleared j (suc k) old new
  Cleared-suc j k old new short (len, kept, cleared) = (
    len ∙ length-modify old (j % num_items p) p.reset_item,
    (λ m from upto.
        kept m (omega arith) (omega arith)
        ∙ get_elem?-modify_ne old _ _ p.reset_item (other m (omega arith) upto)),
    λ m from upto. elim (dec_lt j m) [
      | yes later ↦
          cleared m (omega arith) (omega arith)
          ∙ ap (reset? p.reset_item)
              (get_elem?-modify_ne old _ _ p.reset_item (other m later (omega arith)))
      | no same ↦ first m (omega arith)
    ],
  )
    where
      other : (m : ℕ) → j < m → m < j + num_items p → j % num_items p ≢ m % num_items p
      other m later near e = omega (arith, mod_inj j m (num_items p) (omega arith) near e)

      at_wrap :
          get_elem? new ((j + num_items p) % num_items p)
          ≡ get_elem? (modify old (j % num_items p) p.reset_item) ((j + num_items p) % num_items p)
      at_wrap = kept (j + num_items p) (omega arith) (omega arith)

      first :
          (m : ℕ)
          → j ≡ m
          → get_elem? new (m % num_items p) ≡ reset? p.reset_item (get_elem? old (m % num_items p))
      first m e = rw (← e) (
          (rw (mod_wrap j (num_items p) some_items) at at_wrap)
          ∙ get-modify_reset old (j % num_items p))

  reset_loop-suc :
      (k fuel j : ℕ) (items new : List A) (count : ℕ)
      → suc k < num_items p
      → reset_loop p fuel
          ((j + 1) % num_items p)
          ((j + 1 + k) % num_items p)
          (modify items (j % num_items p) p.reset_item)
          (count + 1)
        ≡ some (new, count + 1 + k)
      → reset_loop p (suc fuel) (j % num_items p) ((j + suc k) % num_items p) items count
        ≡ some (new, count + suc k)
  unfolding reset_loop
  reset_loop-suc k fuel j items new count short runs =
      let n : ℕ = num_items p in
      let goes_on : j % n ≢ (j + 1 + k) % n =
        λ e. omega (arith, mod_inj j (j + 1 + k) n (omega arith) (omega arith) e) in
      let e : j + suc k ≡ j + 1 + k = omega arith in
      let e' : count + suc k ≡ count + 1 + k = omega arith in
      rw (e, e', ne→== (j % n) _ goes_on, mod_step j n some_items) runs

  pub reset_loop_lem :
      (k fuel j : ℕ) (items : List A) (count : ℕ)
      → k < fuel
      → k < num_items p
      → (new : List A) × (reset_loop p fuel (j % num_items p) ((j + k) % num_items p) items count
          ≡ some (new, count + k))
        × Cleared j k items new
  unfolding reset_loop
  reset_loop_lem k zero j items count enough short = absurd (omega arith)
  reset_loop_lem zero (suc fuel) j items count enough short = (
    items,
    rw (add-zero j, eq→== (j % num_items p) _ refl, add-zero count) refl,
    (refl, (λ m from upto. refl), λ m from upto. absurd (omega arith)),
  )
  reset_loop_lem (suc k) (suc fuel) j items count enough short =
      let (new, runs, done) =
        reset_loop_lem k fuel (j + 1) (modify items (j % num_items p) p.reset_item) (count + 1)
          (omega arith) (omega arith) in
      (
        new,
        reset_loop-suc k fuel j items new count short runs,
        Cleared-suc j k items new short done,
      )

  -- The debug assertion: what `resetSize` computes is the distance that the window moves.
  pub reset_size_lem :
      (j k : ℕ)
      → 0 < k
      → k < num_items p
      → reset_size p (j % num_items p) ((j + k) % num_items p) ≡ k
  reset_size_lem j k some_reset short =
      ground (arith, mod_add j k (num_items p) short, mod-lt j {m = num_items p} some_items)
