-- ===== src/ActiveWindow/Advance.antt =====
-- What sliding the window does to every sequence number: the ring against the window's meaning.
use native.Mathlib.Nat.{zero-add}
use native.Mathlib.Decide.{dec_lt, ℕ_discrete}
use concord_rcanopus.Base.{
  ℕ, zero, suc, ◌+◌, ◌-◌, ◌/◌, ◌%◌, ◌≤◌, ◌<◌, ◌≡◌, refl, sym, ap, ◌∙◌, inl, inr, true, false,
  Option, some, List, map, arith, ltb, if◌then◌else◌, get_elem?, length-map, [], ◌∷◌, ne→==, eq→==,
  Bool-cases, lt→ltb, not_lt→ltb, le→leb, not_le→leb,
}
use concord_rcanopus.ActiveWindow.{
  Params, IsLegal, Window, num_items, slot, inside, get, reset_all, reset_loop, advance_partly,
  advance_checked, advance,
}
use concord_rcanopus.ActiveWindow.Slots.{mod_wrap, div-le, div-lt, div-lt-add, add-le-div}
use concord_rcanopus.ActiveWindow.Ring.{reset?, Cleared, reset_loop_lem, reset_size_lem}
use concord_rcanopus.ActiveWindow.Inside.{IsAligned, inside→le, outside→le, far→outside, get-inside}

module _ {ℓ} {A : Type ℓ} (p : Params A) where
  -- What a number of the moved window holds: its old item if the old window had it, and otherwise
  -- what `reset` makes of the item whose slot it takes over.
  abbrev pub moved_item : Window A → ℕ → Option A
  moved_item w n =
      if inside p w n then get p w n else reset? p.reset_item (get_elem? w.items (slot p n))

  abbrev pub Moved : Window A → ℕ → Window A → Type ℓ
  Moved w new w' =
      IsAligned p w'
      × (w'.beginning ≡ new)
      × ((n : ℕ) → n % p.resolution ≡ 0 → inside p w' n ≡ true → get p w' n ≡ moved_item w n)

  -- The items after a move by `k` positions, at a position of the new window.
  moved_get :
      (b k m : ℕ) (old new : List A) (some_items : 0 < num_items p)
      → Cleared p some_items b k old new
      → b + k ≤ m
      → m < b + k + num_items p
      → get_elem? new (m % num_items p) ≡ (
          if ltb m (b + num_items p)
          then get_elem? old (m % num_items p)
          else reset? p.reset_item (get_elem? old (m % num_items p)))
  moved_get b k m old new some_items (len, kept, cleared) from upto =
      elim (dec_lt m (b + num_items p)) [
        | yes near ↦ rw (lt→ltb m _ near) (kept m from near)
        | no far ↦
            let at_start = cleared (m - num_items p) (omega arith) (omega arith) in
            let same : (m - num_items p) % num_items p ≡ m % num_items p =
              sym (mod_wrap (m - num_items p) (num_items p) some_items)
              ∙ ap (λ (x : ℕ). x % num_items p) (omega arith) in
            rw (not_lt→ltb m _ far) (rw same at at_start)
      ]

  item_at :
      (w : Window A) (new k : ℕ) (items : List A)
      → IsLegal p
      → IsAligned p w
      → new % p.resolution ≡ 0
      → w.beginning ≤ new
      → k < num_items p
      → new / p.resolution ≡ w.beginning / p.resolution + k
      → (some_items : 0 < num_items p)
      → Cleared p some_items (w.beginning / p.resolution) k w.items items
      → (n : ℕ) → n % p.resolution ≡ 0
      → inside p (record { beginning = new; items = items }) n ≡ true
      → get_elem? items (slot p n) ≡ moved_item w n
  item_at w new k items legal aligned grid forward short e some_items done n en at =
      let b : ℕ = w.beginning / p.resolution in
      let m : ℕ = n / p.resolution in
      let bounds = inside→le p (record { beginning = new; items = items }) n at in
      let from : b + k ≤ m = omega (arith, div-le new n p.resolution bounds.0) in
      let upto : m < b + k + num_items p = omega (
        arith,
        div-lt-add n new p.window_size p.resolution legal.resolution_least en grid legal.divides
            bounds.1,
      ) in
      let here = moved_get b k m w.items items some_items done from upto in
      elim (Bool-cases (inside p w n)) [
        | inl old ↦
            let near : m < b + num_items p =
              div-lt-add n w.beginning p.window_size p.resolution legal.resolution_least en
                aligned.on_grid legal.divides (inside→le p w n old).1 in
            rw (old, get-inside p w n en old) (rw (lt→ltb m _ near) at here)
        | inr fresh ↦
            let far : ¬ (m < b + num_items p) = λ near. omega (
              arith,
              add-le-div n w.beginning p.window_size p.resolution legal.resolution_least en
                  aligned.on_grid legal.divides (outside→le p w n fresh (omega (arith, bounds.0))),
            ) in
            rw fresh (rw (not_lt→ltb m _ far) at here)
      ]

  advance_partly-Moved :
      (w : Window A) (new k : ℕ)
      → IsLegal p
      → IsAligned p w
      → new % p.resolution ≡ 0
      → w.beginning ≤ new
      → 0 < k
      → k < num_items p
      → new / p.resolution ≡ w.beginning / p.resolution + k
      → (w' : Window A) × (advance_partly p w new ≡ some w') × Moved w new w'
  unfolding advance_partly inside
  advance_partly-Moved w new k legal aligned grid later some_reset short e = (
    record { beginning = new; items = items },
    rw
        (
          e,
          reset_size_lem p some_items b k some_reset short,
          lt→ltb 0 k some_reset,
          lt→ltb k _ short,
          runs,
          eq→== k k refl,
        )
        refl,
    (
      record { on_grid = grid; full = done.0 ∙ aligned.full },
      refl,
      λ n en at.
          get-inside p _ n en at
          ∙ item_at w new k items legal aligned grid later short e some_items done n en at,
    ),
  )
    where
      b : ℕ
      b = w.beginning / p.resolution

      some_items : 0 < num_items p
      some_items = omega arith

      looped :
          (items : List A) × (reset_loop p
              (suc (num_items p))
              (b % num_items p)
              ((b + k) % num_items p)
              w.items
              0
            ≡ some (items, 0 + k))
          × Cleared p some_items b k w.items items
      looped = reset_loop_lem p some_items k (suc (num_items p)) b w.items 0 (omega arith) short

      items : List A
      items = looped.0

      runs :
          reset_loop p (suc (num_items p)) (b % num_items p) ((b + k) % num_items p) w.items 0
          ≡ some (items, k)
      runs = looped.1 ∙ ap (λ (c : ℕ). some (items, c)) (zero-add k)

      done : Cleared p some_items b k w.items items
      done = looped.2

  reset_all-Moved :
      (w : Window A) (new : ℕ)
      → IsAligned p w
      → new % p.resolution ≡ 0
      → w.beginning + p.window_size ≤ new
      → (w' : Window A) × (reset_all p w new ≡ some w') × Moved w new w'
  unfolding reset_all
  reset_all-Moved w new aligned grid far = (
    record { beginning = new; items = map p.reset_item w.items },
    rw (eq→== (new % p.resolution) 0 grid) refl,
    (
      record { on_grid = grid; full = length-map p.reset_item w.items ∙ aligned.full },
      refl,
      λ n en at.
          let before : inside p w n ≡ false =
            far→outside p w n (omega (arith, (inside→le p _ n at).0)) in
          rw before (get-inside p _ n en at ∙ get_elem?-map w.items (slot p n)),
    ),
  )
    where
      get_elem?-map :
          (xs : List A) (i : ℕ)
          → get_elem? (map p.reset_item xs) i ≡ reset? p.reset_item (get_elem? xs i)
      get_elem?-map [] i = refl
      get_elem?-map (x ∷ xs) zero = refl
      get_elem?-map (x ∷ xs) (suc i) = get_elem?-map xs i

  advance_moves :
      (w : Window A) (new : ℕ)
      → IsLegal p
      → IsAligned p w
      → new % p.resolution ≡ 0
      → w.beginning ≤ new
      → (w' : Window A) × (advance_checked p w new ≡ some w') × Moved w new w'
  unfolding advance_checked
  advance_moves w new legal aligned grid forward = elim (ℕ_discrete new w.beginning) [
    | yes same ↦ (w, rw (eq→== new _ same), (aligned, sym same, λ n en at. rw at))
    | no moves ↦ elim (dec_lt (new - w.beginning) p.window_size) [
      | yes near ↦
          rw (ne→== new _ moves, not_le→leb p.window_size (new - w.beginning) (omega arith))
            (advance_partly-Moved w new (new / p.resolution - w.beginning / p.resolution) legal
              aligned grid forward (omega (arith, ahead (omega arith)))
              (omega (arith, ahead (omega arith), within (omega arith)))
              (omega (arith, ahead (omega arith))))
      | no far ↦
          rw (ne→== new _ moves, le→leb p.window_size (new - w.beginning) (omega arith))
            (reset_all-Moved w new aligned grid (omega arith))
    ]
  ]
    where
      ahead : w.beginning < new → w.beginning / p.resolution < new / p.resolution
      ahead = div-lt w.beginning new p.resolution legal.resolution_least aligned.on_grid grid

      within :
          new < w.beginning + p.window_size
          → new / p.resolution < w.beginning / p.resolution + num_items p
      within =
          div-lt-add new w.beginning p.window_size p.resolution legal.resolution_least grid
            aligned.on_grid legal.divides

  -- Sliding a legal, aligned window forward to a multiple of the resolution meets no failed assertion
  -- and ends; the window then starts there, and each of its numbers holds the item it had before if
  -- the old window had it, and otherwise a reset one: no item is lost, and none is stale.
  pub advance-Moved :
      (w : Window A) (new : ℕ)
      → IsLegal p
      → IsAligned p w
      → new % p.resolution ≡ 0
      → w.beginning ≤ new
      → (w' : Window A) × (advance p w new ≡ some w') × Moved w new w'
  unfolding advance
  advance-Moved w new legal aligned grid forward =
      rw (eq→== (new % p.resolution) 0 grid, le→leb w.beginning new forward)
        (advance_moves w new legal aligned grid forward)
