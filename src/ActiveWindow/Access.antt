-- ===== src/ActiveWindow/Access.antt =====
-- Reads and writes through `get`: each number of the window has a slot of its own.
use native.Mathlib.Nat.{mod-lt}
use native.Mathlib.Decide.{ℕ_discrete, dec_lt}
use concord_rcanopus.Base.{
  ℕ, ◌+◌, ◌/◌, ◌%◌, ◌≤◌, ◌<◌, ◌≡◌, ◌≢◌, refl, sym, ◌∙◌, true, some, arith, ◌==◌, if◌then◌else◌,
  get_elem?, modify, length-modify, length-replicate, get_elem?-modify_self, get_elem?-modify_ne,
  get_elem?_lt, eq→==, ne→==,
}
use concord_rcanopus.ActiveWindow.{
  Params, IsLegal, Window, num_items, slot, inside, get, update, make,
}
use concord_rcanopus.ActiveWindow.Slots.{mod_inj, div-le, div-lt, div-lt-add, div-pos}
use concord_rcanopus.ActiveWindow.Inside.{IsAligned, inside→le, get-inside}

module _ {ℓ} {A : Type ℓ} (p : Params A) where
  pub make-IsAligned : (first : ℕ) (w : Window A) → make p first ≡ some w → IsAligned p w
  unfolding make
  make-IsAligned first w h =
      ground (arith, length-replicate (num_items p) (p.reset_item p.init_item))

  slot_ne :
      (w : Window A) (n m : ℕ)
      → IsLegal p
      → IsAligned p w
      → n % p.resolution ≡ 0
      → m % p.resolution ≡ 0
      → inside p w n ≡ true
      → inside p w m ≡ true
      → n < m
      → slot p n ≢ slot p m
  slot_ne w n m legal aligned en em hn hm lt e =
      let r : ℕ = p.resolution in
      let ordered : n / r < m / r = div-lt n m r legal.resolution_least en em lt in
      let low : w.beginning / r ≤ n / r = div-le w.beginning n r (inside→le p w n hn).0 in
      let high : m / r < w.beginning / r + num_items p =
        div-lt-add m w.beginning p.window_size r legal.resolution_least em aligned.on_grid
          legal.divides (inside→le p w m hm).1 in
      omega (arith, mod_inj (n / r) (m / r) (num_items p) (omega arith) (omega arith) e)

  slots_differ :
      (w : Window A) (n m : ℕ)
      → IsLegal p
      → IsAligned p w
      → n % p.resolution ≡ 0
      → m % p.resolution ≡ 0
      → inside p w n ≡ true
      → inside p w m ≡ true
      → m ≢ n
      → slot p n ≢ slot p m
  slots_differ w n m legal aligned en em hn hm differs e = elim (dec_lt n m) [
    | yes below ↦ slot_ne w n m legal aligned en em hn hm below e
    | no above ↦ slot_ne w m n legal aligned em en hm hn (omega arith) (sym e)
  ]

  pub held :
      (w : Window A) (n : ℕ)
      → IsLegal p
      → IsAligned p w
      → (x : A) × (get_elem? w.items (slot p n) ≡ some x)
  held w n legal aligned =
      let some_items : 0 < num_items p =
        div-pos p.window_size p.resolution legal.resolution_least legal.resolution_below in
      get_elem?_lt w.items (slot p n)
        (omega (arith, mod-lt (n / p.resolution) {m = num_items p} some_items))

  pub update-inside :
      (w : Window A) (n : ℕ) (f : A → A)
      → n % p.resolution ≡ 0
      → inside p w n ≡ true
      → update p w n f ≡ some (record w { items = modify w.items (slot p n) f })
  unfolding update
  update-inside w n f en hn = ground arith

  -- In an aligned window every number of the window that is a multiple of the resolution can be
  -- written and read: the write succeeds, the number itself reads back the new item, and every other
  -- such number of the window reads what it read before.
  pub get-update :
      (w : Window A) (n : ℕ) (f : A → A)
      → IsLegal p
      → IsAligned p w
      → n % p.resolution ≡ 0
      → inside p w n ≡ true
      → (w' : Window A) × (update p w n f ≡ some w')
        × IsAligned p w'
        × ((m : ℕ)
            → m % p.resolution ≡ 0
            → inside p w m ≡ true
            → (x : A) × (get p w m ≡ some x) × (get p w' m ≡ some (if m == n then f x else x)))
  unfolding inside
  get-update w n f legal aligned en hn = (
    record w { items = modify w.items (slot p n) f },
    update-inside w n f en hn,
    record { on_grid = aligned.on_grid; full = length-modify w.items (slot p n) f ∙ aligned.full },
    λ m em hm. elim (ℕ_discrete m n) [
      | yes same ↦
          let (x, e) = held w n legal aligned in
          (
            x,
            rw same (get-inside p w n en hn ∙ e),
            rw (same, eq→== n n refl)
                (get-inside p _ n en hn ∙ get_elem?-modify_self w.items (slot p n) f ∙ rw e),
          )
      | no differs ↦
          let (x, e) = held w m legal aligned in
          (
            x,
            get-inside p w m em hm ∙ e,
            rw (ne→== m n differs) (
                get-inside p _ m em hm
                ∙ get_elem?-modify_ne w.items _ _ f
                    (slots_differ w n m legal aligned en em hn hm differs)
                ∙ e),
          )
    ],
  )
