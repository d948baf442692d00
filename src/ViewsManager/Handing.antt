-- ===== src/ViewsManager/Handing.antt =====
-- What freeing the messages of stable numbers and handing over the others does to the arrays.
use concord_rcanopus.Base.{
  ℕ, zero, suc, ◌+◌, ◌-◌, ◌≤◌, ◌≡◌, inl, inr, refl, sym, ap, ◌∙◌, true, false, not, ◌||◌, Option,
  none, some, List, [], ◌∷◌, arith, ◌==◌, ==→eq, length, take, drop, Bool-cases, if_false, refuted,
  bind_inv, assert_inv, some_inj, then_inv, else_inv,
}
use mathlib.Core.Path.{subst}
use concord_rcanopus.ViewChange.Restrictions.{Restriction}
use concord_rcanopus.ViewsManager.{PrePrepareMsg, Digests}
use concord_rcanopus.ViewsManager.Entering.{
  create_null_pre_prepare, release_range, entering_message, enter_range,
}
use concord_rcanopus.ViewsManager.Quorum.{all_none}
use concord_rcanopus.ViewsManager.Arrays.{Meets, Fits, head_holds}

-- After the entries of `a` numbers are freed, the others still fit.
abbrev pub Released : ℕ → ℕ → ℕ → List Restriction → List (Option PrePrepareMsg) → Type 0
Released i a n rs pps =
    Fits (i + a) (n - a) (drop a rs) (drop a pps) × (all_none (take a pps) ≡ true)

numbers : (i a n : ℕ) → (i + 1 + a ≡ i + suc a) × (n - a ≡ suc n - suc a)
numbers i a n = (omega arith, omega arith)

free_next :
    (i a n : ℕ) (r : Restriction) (rs : List Restriction) (pps : List (Option PrePrepareMsg))
    → Released (i + 1) a n rs pps
    → Released i (suc a) (suc n) (r ∷ rs) (none ∷ pps)
free_next i a n r rs pps (fits, clear) = (
  subst (λ x. Fits x (suc n - suc a) (drop a rs) (drop a pps)) (numbers i a n).0
      (subst (λ y. Fits (i + 1 + a) y (drop a rs) (drop a pps)) (numbers i a n).1 fits),
  clear,
)

free_zero :
    (i n : ℕ) (rs : List Restriction) (pps : List (Option PrePrepareMsg))
    → Fits i n rs pps
    → Released i 0 n rs pps
free_zero i n rs pps h =
    (subst (λ x. Fits x (n - 0) rs pps) (sum i) (subst (λ y. Fits i y rs pps) (rest n) h), refl)
  where
    sum : (i : ℕ) → i ≡ i + 0
    sum i = omega arith

    rest : (n : ℕ) → n ≡ n - 0
    rest n = omega arith

-- The messages of stable numbers are freed, and the others still fit.
pub release_range-Fits :
    (i a n : ℕ) (rs : List Restriction) (pps pps' : List (Option PrePrepareMsg))
    → a ≤ n
    → Fits i n rs pps
    → release_range i a rs pps ≡ some pps'
    → Released i a n rs pps'
unfolding release_range
release_range-Fits i zero n rs pps pps' le h e =
    free_zero i n rs pps' (subst (Fits i n rs) (some_inj e) h)
release_range-Fits i (suc a) zero rs pps pps' le h e = absurd (omega arith)
release_range-Fits i (suc a) (suc n) [] pps pps' le h e = absurd (cc e)
release_range-Fits i (suc a) (suc n) (r ∷ rs) [] pps' le h e = absurd (cc e)
release_range-Fits i (suc a) (suc n) (r ∷ rs) (none ∷ pps) pps' le h e =
    let (later, ran, same) = bind_inv (release_range (i + 1) a rs pps) _ _ e in
    subst (Released i (suc a) (suc n) (r ∷ rs)) (some_inj same)
      (free_next i a n r rs later (release_range-Fits (i + 1) a n rs pps later (omega arith) h ran))
release_range-Fits i (suc a) (suc n) (r ∷ rs) (some pp ∷ pps) pps' le h e =
    let (later, ran, e1) = bind_inv (release_range (i + 1) a rs pps) _ _ e in
    let (here, same) = assert_inv (r.is_null || pp.seq_number == i) _ _ e1 in
    subst (Released i (suc a) (suc n) (r ∷ rs))
      (ap (λ o. o ∷ later) (sym (if_false r.is_null (some pp) none h.0.0)) ∙ some_inj same)
      (free_next i a n r rs later
        (release_range-Fits (i + 1) a n rs pps later (omega arith) h.1 ran))

-- A message that enters a view: of the number and the view, a null request where the number has no
-- restriction, and with the restriction's digest where it has one.
abbrev pub Obeys : Digests → ℕ → ℕ → Restriction → PrePrepareMsg → Type 0
Obeys d v i r pp =
    (pp.seq_number ≡ i)
    × (pp.view_number ≡ v)
    × (r.is_null ≡ true → pp ≡ create_null_pre_prepare d v i)
    × (r.is_null ≡ false → pp.digest_of_requests ≡ r.digest)

-- The messages are those of consecutive numbers from `i` on.
abbrev pub AllObey : Digests → ℕ → ℕ → List Restriction → List PrePrepareMsg → Type 0
AllObey d v i rs [] = Unit
AllObey d v i [] (pp ∷ pps) = true ≡ false
AllObey d v i (r ∷ rs) (pp ∷ pps) = Obeys d v i r pp × AllObey d v (i + 1) rs pps

entering_message-Obeys :
    (d : Digests) (v i : ℕ) (r : Restriction) (o : Option PrePrepareMsg) (m : PrePrepareMsg)
    → ((pp : PrePrepareMsg) → o ≡ some pp → Meets i r pp)
    → entering_message d v i r o ≡ some m
    → Obeys d v i r m
unfolding entering_message
entering_message-Obeys d v i r none m h e = elim (Bool-cases r.is_null) [
  | inl null ↦
      subst (Obeys d v i r) (some_inj (then_inv r.is_null _ _ null e))
        (refl, refl, (λ h'. refl), (λ restricted. absurd (cc (null, restricted))))
  | inr restricted ↦ absurd (cc (else_inv r.is_null _ _ restricted e))
]
entering_message-Obeys d v i r (some pp) m h e =
    let (restricted, e1) = assert_inv (not r.is_null) _ _ e in
    let (here, e2) = assert_inv (pp.seq_number == i) _ _ e1 in
    subst (Obeys d v i r) (some_inj e2) (
      ==→eq pp.seq_number i here,
      refl,
      (λ null. absurd (cc (refuted r.is_null restricted, null))),
      (λ h'. (h pp refl).1),
    )

abbrev Entered :
    Digests
    → ℕ
    → ℕ
    → ℕ
    → List Restriction
    → List PrePrepareMsg × List (Option PrePrepareMsg)
    → Type 0
Entered d v i n rs entered =
    AllObey d v i rs entered.0 × (length entered.0 ≡ n) × (all_none entered.1 ≡ true)

-- The messages handed over, one for each number, and nothing is left behind.
pub enter_range-Entered :
    (d : Digests) (v i n : ℕ) (rs : List Restriction) (pps : List (Option PrePrepareMsg))
    (entered : List PrePrepareMsg × List (Option PrePrepareMsg))
    → Fits i n rs pps
    → enter_range d v i n rs pps ≡ some entered
    → AllObey d v i rs entered.0 × (length entered.0 ≡ n) × (all_none entered.1 ≡ true)
unfolding enter_range
enter_range-Entered d v i zero rs pps entered h e =
    subst (Entered d v i 0 rs) (some_inj e) (tt, refl, h)
enter_range-Entered d v i (suc n) [] pps entered h e = absurd (cc e)
enter_range-Entered d v i (suc n) (r ∷ rs) [] entered h e = absurd (cc e)
enter_range-Entered d v i (suc n) (r ∷ rs) (o ∷ pps) entered h e =
    let (meets, fits) = head_holds i n r rs o pps h in
    let (m, made, e1) = bind_inv (entering_message d v i r o) _ _ e in
    let (later, ran, e2) = bind_inv (enter_range d v (i + 1) n rs pps) _ _ e1 in
    let (obey, size, clear) = enter_range-Entered d v (i + 1) n rs pps later fits ran in
    subst (Entered d v i (suc n) (r ∷ rs)) (some_inj e2)
      ((entering_message-Obeys d v i r o m meets made, obey), ap suc size, clear)
