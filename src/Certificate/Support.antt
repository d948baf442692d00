-- ===== src/Certificate/Support.antt =====
-- How many stored messages are equivalent to a given one, and what `find_class` finds.
use native.Mathlib.Nat.{add-zero}
use concord_rcanopus.Base.{
  ℕ, suc, ◌+◌, ◌≡◌, refl, Bool, true, Option, none, some, List, [], ◌∷◌, arith, if◌then◌else◌,
  get_elem?, ◌⊎◌, inl, inr, Bool-cases,
}
use concord_rcanopus.Certificate.{ClassInfo, MsgMap, lookup, find_class}

-- The messages of the map that `m` is equivalent to.
module _ {ℓ} {T : Type ℓ} (equivalent : T → T → Bool) where
  abbrev pub support : T → MsgMap T → ℕ
  support m [] = 0
  support m ((r, x) ∷ rest) = (if equivalent m x then 1 else 0) + support m rest

  -- Replicas that are listed as representatives have sent a message.
  abbrev pub Found : MsgMap T → List ClassInfo → Type ℓ
  Found msgs [] = Unit
  Found msgs (class ∷ rest) =
      ((m : T) × (lookup class.representative msgs ≡ some m)) × Found msgs rest

  -- `find_class` from index `k` gives the first class whose representative's message fits, if any.
  abbrev pub Finds : MsgMap T → T → List ClassInfo → ℕ → Option (Option ℕ) → Type ℓ
  Finds msgs msg classes k r =
      (r ≡ some none)
      ⊎ ((i : ℕ) × (class : ClassInfo) × (m : T) × (r ≡ some (some (k + i)))
          × (get_elem? classes i ≡ some class)
          × (lookup class.representative msgs ≡ some m)
          × (equivalent m msg ≡ true))

  find_class-later :
      (msgs : MsgMap T) (msg : T) (class : ClassInfo) (rest : List ClassInfo) (k : ℕ)
      → Finds msgs msg rest (k + 1) (find_class equivalent msgs msg rest (k + 1))
      → Finds msgs msg (class ∷ rest) k (find_class equivalent msgs msg rest (k + 1))
  find_class-later msgs msg class rest k (inl e) = inl e
  find_class-later msgs msg class rest k (inr (i, cls, m, e, at, look, eq)) =
      let shift : k + 1 + i ≡ k + suc i = omega arith in
      inr (suc i, cls, m, (rw shift at e), at, look, eq)

  pub find_class-Finds :
      (msgs : MsgMap T) (msg : T) (classes : List ClassInfo) (k : ℕ)
      → Found msgs classes
      → Finds msgs msg classes k (find_class equivalent msgs msg classes k)
  unfolding find_class
  find_class-Finds msgs msg [] k found = inl refl
  find_class-Finds msgs msg (class ∷ rest) k ((m, e), found) =
      elim (Bool-cases (equivalent m msg)) [
        | inl fits ↦
            inr (0, class, m, rw (e, find_class, fits) (rw (add-zero k) refl), refl, e, fits)
        | inr differs ↦
            rw (e, find_class, differs)
              (find_class-later msgs msg class rest k
                (find_class-Finds msgs msg rest (k + 1) found))
      ]
