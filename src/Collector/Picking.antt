-- ===== src/Collector/Picking.antt =====
-- Keeping the items of a list that pass a test, and taking one out: the lemmas on what is in flight.
use concord_rcanopus.Base.{
  ℕ, zero, suc, ◌≡◌, ◌≢◌, refl, sym, ap, ◌∙◌, Bool, true, false, ◌&&◌, Option, none, some, List, [],
  ◌∷◌, ◌++◌, if◌then◌else◌, and_true, if_true, if_false, ◌>>=◌, then_inv,
}
use mathlib.Core.Path.{subst}
use concord_rcanopus.Collector.Shares.{both_true}
use concord_rcanopus.Collector.System.{pick}

module _ {A : Type 0} where
  abbrev pub keep : (A → Bool) → List A → List A
  keep p [] = []
  keep p (x ∷ xs) = if p x then x ∷ keep p xs else keep p xs

  abbrev pub every : (A → Bool) → List A → Bool
  every p [] = true
  every p (x ∷ xs) = p x && every p xs

  pub keep-append :
      (p : A → Bool) (xs ys : List A) → every p xs ≡ true → keep p (xs ++ ys) ≡ xs ++ keep p ys
  keep-append p [] ys h = refl
  keep-append p (x ∷ xs) ys h =
      let (here, later) = and_true (p x) (every p xs) h in
      if_true (p x) _ _ here ∙ ap (λ zs. x ∷ zs) (keep-append p xs ys later)

  pub every-append :
      (p : A → Bool) (xs ys : List A)
      → every p xs ≡ true
      → every p ys ≡ true
      → every p (xs ++ ys) ≡ true
  every-append p [] ys hx hy = hy
  every-append p (x ∷ xs) ys hx hy =
      let (here, later) = and_true (p x) (every p xs) hx in
      both_true here (every-append p xs ys later hy)

  pub every_weaker :
      (p q : A → Bool) (xs : List A)
      → ((x : A) → p x ≡ true → q x ≡ true)
      → every p xs ≡ true
      → every q xs ≡ true
  every_weaker p q [] weaker h = refl
  every_weaker p q (x ∷ xs) weaker h =
      let (here, later) = and_true (p x) (every p xs) h in
      both_true (weaker x here) (every_weaker p q xs weaker later)

  pub keep_none :
      (p q : A → Bool) (xs : List A)
      → ((x : A) → p x ≡ true → q x ≡ false)
      → every p xs ≡ true
      → keep q xs ≡ []
  keep_none p q [] apart h = refl
  keep_none p q (x ∷ xs) apart h =
      let (here, later) = and_true (p x) (every p xs) h in
      if_false (q x) _ _ (apart x here) ∙ keep_none p q xs apart later

  -- How one that is taken out stands to the rest.
  pub data Picked : A → List A → List A → Type 0 where
    first : {x : A} {xs : List A} → Picked x xs (x ∷ xs)
    later : {x y : A} {xs ys : List A} → Picked x xs ys → Picked x (y ∷ xs) (y ∷ ys)

  abbrev the_rest : A → A × List A → A × List A
  the_rest y picked = (picked.0, y ∷ picked.1)

  picked_on :
      (y : A) (o : Option (A × List A)) (x : A) (rest xs : List A)
      → ((x' : A) (rest' : List A) → o ≡ some (x', rest') → Picked x' rest' xs)
      → (do picked ← o; some (the_rest y picked)) ≡ some (x, rest)
      → Picked x rest (y ∷ xs)
  picked_on y none x rest xs h same = absurd (cc same)
  picked_on y (some (x', rest')) x rest xs h same =
      subst (λ (z : A × List A). Picked z.0 z.1 (y ∷ xs)) (cc same) (later (h x' rest' refl))

  pub pick-Picked :
      (i : ℕ) (xs : List A) (x : A) (rest : List A) → pick i xs ≡ some (x, rest) → Picked x rest xs
  pick-Picked i [] x rest same = absurd (cc same)
  pick-Picked zero (y ∷ xs) x rest same =
      subst (λ (z : A × List A). Picked z.0 z.1 (y ∷ xs)) (cc same) first
  pick-Picked (suc i) (y ∷ xs) x rest same =
      picked_on y (pick i xs) x rest xs (pick-Picked i xs) same

  pub picked_every :
      (p : A → Bool) {x : A} {rest xs : List A}
      → Picked x rest xs
      → every p xs ≡ true
      → (p x ≡ true) × (every p rest ≡ true)
  picked_every p first h = and_true _ _ h
  picked_every p (later picked) h =
      let (here, h') = and_true _ _ h in
      let (taken, others) = picked_every p picked h' in (taken, both_true here others)

  pub picked_other :
      (p : A → Bool) {x : A} {rest xs : List A}
      → Picked x rest xs
      → p x ≡ false
      → keep p xs ≡ keep p rest
  picked_other p first h = if_false _ _ _ h
  picked_other p (later {y = y} picked) h =
      ap (λ zs. if p y then y ∷ zs else zs) (picked_other p picked h)

  kept_more : (b : Bool) (y : A) (ys : List A) → (if b then y ∷ ys else ys) ≡ [] → ys ≡ []
  kept_more true y ys h = absurd (cc h)
  kept_more false y ys h = h

  pub picked_some :
      (p : A → Bool) {x : A} {rest xs : List A} → Picked x rest xs → p x ≡ true → keep p xs ≢ []
  picked_some p (first {x = x} {xs = xs}) h none_kept =
      absurd (cc (then_inv (p x) (x ∷ keep p xs) (keep p xs) h none_kept))
  picked_some p (later {y = y} {ys = ys} picked) h none_kept =
      picked_some p picked h (kept_more (p y) y (keep p ys) none_kept)

  kept_one :
      (b : Bool) (y z : A) (ys : List A)
      → (if b then y ∷ ys else ys) ≡ z ∷ []
      → ys ≢ []
      → (b ≡ false) × (ys ≡ z ∷ [])
  kept_one true y z ys h some_kept = absurd (some_kept (cc h))
  kept_one false y z ys h some_kept = (refl, h)

  pub picked_one :
      (p : A → Bool) {x : A} {rest xs : List A} (z : A)
      → Picked x rest xs
      → p x ≡ true
      → keep p xs ≡ z ∷ []
      → (z ≡ x) × (keep p rest ≡ [])
  picked_one p z (first {x = x} {xs = xs}) h one =
      let same = sym (if_true (p x) (x ∷ keep p xs) (keep p xs) h) ∙ one in (cc same, cc same)
  picked_one p z (later {y = y} {xs = xs} {ys = ys} picked) h one =
      let (skipped, one') = kept_one (p y) y z (keep p ys) one (picked_some p picked h) in
      let (same, nothing) = picked_one p z picked h one' in
      (same, if_false (p y) (y ∷ keep p xs) (keep p xs) skipped ∙ nothing)
