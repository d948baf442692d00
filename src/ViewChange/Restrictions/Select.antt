-- ===== src/ViewChange/Restrictions/Select.antt =====
-- The slow path: the prepared certificates of a sequence number, and the one that is selected.
use concord_rcanopus.Base.{
  ℕ, ◌≤◌, ◌≡◌, refl, sym, Bool, true, false, Option, none, some, List, [], ◌∷◌, arith, inl, inr,
  le→leb, eq→==, lt→ltb, Bool-cases, ◌⊎◌, ap, ◌∙◌, leb, ltb, ◌==◌, length, some_inj, assert_inv,
  assert, ◌>>◌, ◌>>=◌, then_inv, else_inv,
}
use mathlib.Core.Path.{subst}
use concord_rcanopus.ViewChange.{
  Element, Iterator, SlowElem, slow_of, insert?, collect_slow, check_slow,
  check_slow_path_certificates,
}
use concord_rcanopus.ViewChange.Advance.{IsLegal, AllLive}
use concord_rcanopus.ViewChange.Restrictions.{is_certified, select_slow}
use concord_rcanopus.ViewChange.Restrictions.Order.{
  All, All-map, view_of, digest_of, IsCandidate, IsOrdered, Covers, All-slow_insert,
  IsOrdered-slow_insert, Covers-slow_insert, Covers-slow_insert_self,
}

-- A set as the collection builds it.
abbrev pub IsSlowSet : ℕ → List SlowElem → Type 0
IsSlowSet s set = All (IsCandidate s) set × IsOrdered set

abbrev pub IsCovered : List SlowElem → Option SlowElem → Type 0
IsCovered set none = Unit
IsCovered set (some a) = Covers set (view_of a) (digest_of a)

-- The view and digest of every certificate that an iterator offers are those of one in the set.
abbrev pub AllCovered : ℕ → List Iterator → List SlowElem → Type 0
AllCovered s [] set = Unit
AllCovered s ([] ∷ rest) set = AllCovered s rest set
AllCovered s ((e ∷ later) ∷ rest) set = IsCovered set (slow_of s e) × AllCovered s rest set

-- One of the iterators is at an element with the certificate.
abbrev pub Offers : ℕ → List Iterator → SlowElem → Type 0
Offers s [] a = true ≡ false
Offers s ([] ∷ rest) a = Offers s rest a
Offers s ((e ∷ later) ∷ rest) a = (slow_of s e ≡ some a) ⊎ Offers s rest a

Offers-IsCovered :
    (s : ℕ) (iters : List Iterator) (set : List SlowElem) (a : SlowElem)
    → AllCovered s iters set
    → Offers s iters a
    → Covers set (view_of a) (digest_of a)
Offers-IsCovered s [] set a covered offered = absurd (cc offered)
Offers-IsCovered s ([] ∷ rest) set a covered offered = Offers-IsCovered s rest set a covered offered
Offers-IsCovered s ((e ∷ later) ∷ rest) set a (here, covered) (inl same) =
    subst (IsCovered set) same here
Offers-IsCovered s ((e ∷ later) ∷ rest) set a (here, covered) (inr offered) =
    Offers-IsCovered s rest set a covered offered

insert?-All :
    (P : SlowElem → Type 0) (o : Option SlowElem) (found : List SlowElem)
    → ((a : SlowElem) → o ≡ some a → P a)
    → All P found
    → All P (insert? o found)
insert?-All P none found h held = held
insert?-All P (some a) found h held = All-slow_insert P a found (h a refl) held

-- What holds of every certificate that is offered holds of the set's.
collect_slow-All :
    (P : SlowElem → Type 0) (s : ℕ) (iters : List Iterator) (found set : List SlowElem)
    → ((a : SlowElem) → Offers s iters a → P a)
    → All P found
    → collect_slow s iters found ≡ some set
    → All P set
unfolding collect_slow
collect_slow-All P s [] found set h held runs = subst (All P) (some_inj runs) held
collect_slow-All P s ([] ∷ rest) found set h held runs = absurd (cc runs)
collect_slow-All P s ((e ∷ later) ∷ rest) found set h held runs =
    collect_slow-All P s rest (insert? (slow_of s e) found) set (λ a offered. h a (inr offered))
      (insert?-All P (slow_of s e) found (λ a same. h a (inl same)) held)
      (passed (leb s e.seq_num) _ runs)
  where
    passed :
        (b : Bool) (f : Element → Option (List SlowElem))
        → (assert b >> some e) >>= f ≡ some set
        → f e ≡ some set
    passed true f h = h
    passed false f h = absurd (cc h)

-- The member of a set that stands for a view and a digest.
Covers-member :
    (P Q : SlowElem → Type 0) (set : List SlowElem) (v d : ℕ)
    → Covers set v d
    → All P set
    → All Q set
    → (x : SlowElem) × P x × Q x × (view_of x ≡ v) × (digest_of x ≡ d)
Covers-member P Q [] v d h hp hq = absurd h
Covers-member P Q (x ∷ rest) v d (inl (hv, hd)) hp hq = (x, hp.0, hq.0, hv, hd)
Covers-member P Q (x ∷ rest) v d (inr h) hp hq = Covers-member P Q rest v d h hp.1 hq.1

candidate :
    (s : ℕ) (e : Element) (a : SlowElem) → IsLegal e → slow_of s e ≡ some a → IsCandidate s a
candidate s e a legal h = ground arith

insert?-IsSlowSet :
    (s : ℕ) (o : Option SlowElem) (set : List SlowElem)
    → ((a : SlowElem) → o ≡ some a → IsCandidate s a)
    → IsSlowSet s set
    → IsSlowSet s (insert? o set)
insert?-IsSlowSet s none set h k = k
insert?-IsSlowSet s (some a) set h k =
    (All-slow_insert (IsCandidate s) a set (h a refl) k.0, IsOrdered-slow_insert a set k.1)

insert?-IsCovered : (o : Option SlowElem) (set : List SlowElem) → IsCovered (insert? o set) o
insert?-IsCovered none set = tt
insert?-IsCovered (some a) set = Covers-slow_insert_self a set

insert?-Covers :
    (o : Option SlowElem) (set : List SlowElem) (v d : ℕ)
    → Covers set v d
    → Covers (insert? o set) v d
insert?-Covers none set v d h = h
insert?-Covers (some a) set v d h = Covers-slow_insert a set v d h

IsCovered-mono :
    (o : Option SlowElem) (old new : List SlowElem)
    → ((v d : ℕ) → Covers old v d → Covers new v d)
    → IsCovered old o
    → IsCovered new o
IsCovered-mono none old new f h = tt
IsCovered-mono (some a) old new f h = f _ _ h

-- Collecting meets no failed assertion; the set has candidates only, in order, and covers every
-- certificate that is offered.
pub collect_slow-IsSlowSet :
    (s : ℕ) (iters : List Iterator) (found : List SlowElem)
    → AllLive s iters
    → IsSlowSet s found
    → (set : List SlowElem) × (collect_slow s iters found ≡ some set)
      × IsSlowSet s set
      × AllCovered s iters set
      × ((v d : ℕ) → Covers found v d → Covers set v d)
unfolding collect_slow
collect_slow-IsSlowSet s [] found live ok = (found, refl, ok, tt, λ v d h. h)
collect_slow-IsSlowSet s ([] ∷ rest) found live ok = absurd live.0
collect_slow-IsSlowSet s ((e ∷ later) ∷ rest) found live ok =
    let (set, runs, ok', covered, grows) =
      collect_slow-IsSlowSet s rest (insert? (slow_of s e) found) live.1
        (insert?-IsSlowSet s (slow_of s e) found (λ a h. candidate s e a live.0.1 h) ok) in
    (
      set,
      rw (le→leb s e.seq_num live.0.0) runs,
      ok',
      (
        IsCovered-mono (slow_of s e) (insert? (slow_of s e) found) set grows
            (insert?-IsCovered (slow_of s e) found),
        covered,
      ),
      λ v d h. grows v d (insert?-Covers (slow_of s e) found v d h),
    )

check_slow-true :
    (s : ℕ) (last : SlowElem) (set : List SlowElem)
    → IsCandidate s last
    → IsSlowSet s set
    → All (λ x. view_of x ≤ view_of last) set
    → check_slow last set ≡ some true
unfolding check_slow
check_slow-true s last [] c ok below = refl
check_slow-true s last (e ∷ rest) c ok below =
    ground (arith, check_slow-true s e rest ok.0.0 (ok.0.1, ok.1.1) ok.1.0)

-- The debugging check passes on such a set.
pub check_slow_path_certificates-true :
    (s : ℕ) (set : List SlowElem) → IsSlowSet s set → check_slow_path_certificates set ≡ some true
check_slow_path_certificates-true s [] ok = refl
check_slow_path_certificates-true s (e ∷ rest) ok =
    check_slow-true s e rest ok.0.0 (ok.0.1, ok.1.1) ok.1.0

module _ (combine : ℕ → ℕ → ℕ → ℕ) (verify : ℕ → List ℕ → Bool) where
  -- The selected certificate is valid, and no valid one of the set has a higher view; without one,
  -- none of the set is valid.
  abbrev pub IsBest : List SlowElem → Option SlowElem → Type 0
  IsBest set none = All (λ x. is_certified combine verify x ≡ false) set
  IsBest set (some e) =
      (is_certified combine verify e ≡ true)
      × Covers set (view_of e) (digest_of e)
      × All (λ x. is_certified combine verify x ≡ true → view_of x ≤ view_of e) set

  select_later :
      (e : SlowElem) (rest : List SlowElem) (r : Option SlowElem)
      → is_certified combine verify e ≡ false
      → IsBest rest r
      → IsBest (e ∷ rest) r
  select_later e rest none bad h = (bad, h)
  select_later e rest (some x) bad h = (h.0, inr h.1, ((λ good. absurd (cc (bad, good))), h.2))

  pub select_slow-IsBest :
      (s : ℕ) (set : List SlowElem)
      → IsSlowSet s set
      → (r : Option SlowElem) × (select_slow combine verify s set ≡ some r) × IsBest set r
  unfolding select_slow
  select_slow-IsBest s [] ok = (none, refl, tt)
  select_slow-IsBest s (e ∷ rest) ok = elim (Bool-cases (is_certified combine verify e)) [
    | inl good ↦ (
      some e,
      rw (eq→== s e.element.seq_num (sym ok.0.0.0), lt→ltb 0 _ ok.0.0.1, good) refl,
      (good, inl (refl, refl), ((λ _. omega arith), All-map (λ x h _. h) rest ok.1.0)),
    )
    | inr bad ↦
        let (r, runs, best) = select_slow-IsBest s rest (ok.0.1, ok.1.1) in
        (
          r,
          rw (eq→== s e.element.seq_num (sym ok.0.0.0), lt→ltb 0 _ ok.0.0.1, bad) runs,
          select_later e rest r bad best,
        )
  ]

  select_slow-All :
      (P : SlowElem → Type 0) (s : ℕ) (set : List SlowElem) (a : SlowElem)
      → All P set
      → select_slow combine verify s set ≡ some (some a)
      → P a
  unfolding select_slow
  select_slow-All P s [] a held runs = absurd (cc runs)
  select_slow-All P s (e ∷ rest) a held runs =
      let (at, e1) = assert_inv (s == e.element.seq_num) _ _ runs in
      let (signed, e2) = assert_inv (ltb 0 (length e.cert.certificate_sig)) _ _ e1 in
      elim (Bool-cases (is_certified combine verify e)) [
        | inl good ↦
            subst P (some_inj (some_inj (then_inv (is_certified combine verify e) _ _ good e2)))
              held.0
        | inr bad ↦
            select_slow-All P s rest a held.1 (else_inv (is_certified combine verify e) _ _ bad e2)
      ]

  -- A chosen certificate of at least the view; none is chosen where there is none.
  abbrev pub Reaches : Option SlowElem → SlowElem → Type 0
  Reaches none b = true ≡ false
  Reaches (some a) b = view_of b ≤ view_of a

  -- An invalid certificate that is offered for the same view and digest.
  abbrev pub Hides : ℕ → List Iterator → SlowElem → Type 0
  Hides s iters b =
      (x : SlowElem) × Offers s iters x
      × (is_certified combine verify x ≡ false)
      × (view_of x ≡ view_of b)
      × (digest_of x ≡ digest_of b)

  -- The certificate that is chosen, of those that the iterators offer.
  abbrev pub IsChosen : ℕ → List Iterator → Option SlowElem → Type 0
  IsChosen s iters slow =
      ((a : SlowElem) → slow ≡ some a → Offers s iters a × (is_certified combine verify a ≡ true))
      × ((b : SlowElem)
          → Offers s iters b
          → is_certified combine verify b ≡ true
          → Reaches slow b ⊎ Hides s iters b)

  best-Reaches :
      (set : List SlowElem) (slow : Option SlowElem)
      → IsBest set slow
      → All (λ x. (is_certified combine verify x ≡ true) → Reaches slow x) set
  best-Reaches set none best = All-map (λ x bad good. cc (bad, good)) set best
  best-Reaches set (some a) best = best.2

  pub select_slow-IsChosen :
      (s : ℕ) (iters : List Iterator) (set : List SlowElem) (slow : Option SlowElem)
      → collect_slow s iters [] ≡ some set
      → select_slow combine verify s set ≡ some slow
      → AllCovered s iters set
      → IsBest set slow
      → IsChosen s iters slow
  select_slow-IsChosen s iters set slow collects selects covered best =
      let offered = collect_slow-All (Offers s iters) s iters [] set (λ a h. h) tt collects in
      (
        λ a same. (
          select_slow-All (Offers s iters) s set a offered (selects ∙ ap some same),
          certified slow a same best,
        ),
        λ b here good.
            let (x, x_offered, reaches, hv, hd) =
              Covers-member (Offers s iters) _ set (view_of b) (digest_of b)
                (Offers-IsCovered s iters set b covered here) offered
                (best-Reaches set slow best) in
            elim (Bool-cases (is_certified combine verify x)) [
              | inl valid ↦ inl (at_view slow x b hv (reaches valid))
              | inr bad ↦ inr (x, x_offered, bad, hv, hd)
            ],
      )
    where
      certified :
          (slow : Option SlowElem) (a : SlowElem)
          → slow ≡ some a
          → IsBest set slow
          → is_certified combine verify a ≡ true
      certified none a same best = absurd (cc same)
      certified (some x) a same best =
          subst (λ y. is_certified combine verify y ≡ true) (some_inj same) best.0

      at_view :
          (slow : Option SlowElem) (x b : SlowElem)
          → view_of x ≡ view_of b
          → Reaches slow x
          → Reaches slow b
      at_view none x b hv h = h
      at_view (some a) x b hv h = omega arith
