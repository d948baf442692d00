-- ===== src/ViewsManager/Arrays.antt =====
-- The arrays of the restricted numbers: what clearing, filling and completing them does.
use concord_rcanopus.Base.{
  ℕ, zero, suc, ◌+◌, ◌<◌, ◌≡◌, inl, inr, refl, sym, ap, ◌∙◌, true, false, Option, none, some, List,
  [], ◌∷◌, arith, ◌==◌, ==→eq, get_elem?, set, Bool-cases, bind_inv, some_inj, then_inv, else_inv,
}
use mathlib.Core.Path.{subst}
use concord_rcanopus.ViewChange.Restrictions.{Restriction}
use concord_rcanopus.ViewsManager.{PrePrepareMsg, find_pre_prepare}
use concord_rcanopus.ViewsManager.Pending.{clear_range}
use concord_rcanopus.ViewsManager.Missing.{matching, fitting, fill_range}
use concord_rcanopus.ViewsManager.Quorum.{all_none}

-- A message meets the restriction of the number.
abbrev pub Meets : ℕ → Restriction → PrePrepareMsg → Type 0
Meets i r pp = (r.is_null ≡ false) × (pp.digest_of_requests ≡ r.digest) × (pp.seq_number ≡ i)

-- The messages of the `n` numbers from `i` on meet the restrictions, and there are no others.
abbrev pub Fits : ℕ → ℕ → List Restriction → List (Option PrePrepareMsg) → Type 0
Fits i zero rs pps = all_none pps ≡ true
Fits i (suc n) [] pps = all_none pps ≡ true
Fits i (suc n) (r ∷ rs) [] = Unit
Fits i (suc n) (r ∷ rs) (none ∷ pps) = Fits (i + 1) n rs pps
Fits i (suc n) (r ∷ rs) (some pp ∷ pps) = Meets i r pp × Fits (i + 1) n rs pps

pub none-Fits :
    (i n : ℕ) (rs : List Restriction) (pps : List (Option PrePrepareMsg))
    → all_none pps ≡ true
    → Fits i n rs pps
none-Fits i zero rs pps h = h
none-Fits i (suc n) [] pps h = h
none-Fits i (suc n) (r ∷ rs) [] h = tt
none-Fits i (suc n) (r ∷ rs) (none ∷ pps) h = none-Fits (i + 1) n rs pps h
none-Fits i (suc n) (r ∷ rs) (some pp ∷ pps) h = absurd (cc h)

all_cleared :
    (n : ℕ) (pps pps' : List (Option PrePrepareMsg))
    → all_none pps ≡ true
    → clear_range n pps ≡ some pps'
    → all_none pps' ≡ true
unfolding clear_range
all_cleared zero pps pps' h e = subst (λ x. all_none x ≡ true) (some_inj e) h
all_cleared (suc n) [] pps' h e = absurd (cc e)
all_cleared (suc n) (none ∷ pps) pps' h e =
    let (later, ran, same) = bind_inv (clear_range n pps) _ _ e in
    subst (λ x. all_none x ≡ true) (some_inj same) (all_cleared n pps later h ran)
all_cleared (suc n) (some pp ∷ pps) pps' h e = absurd (cc h)

-- Clearing the restricted numbers leaves no message.
pub clear_range-none :
    (i n : ℕ) (rs : List Restriction) (pps pps' : List (Option PrePrepareMsg))
    → Fits i n rs pps
    → clear_range n pps ≡ some pps'
    → all_none pps' ≡ true
unfolding clear_range
clear_range-none i zero rs pps pps' h e = subst (λ x. all_none x ≡ true) (some_inj e) h
clear_range-none i (suc n) [] pps pps' h e = all_cleared (suc n) pps pps' h e
clear_range-none i (suc n) (r ∷ rs) [] pps' h e = absurd (cc e)
clear_range-none i (suc n) (r ∷ rs) (none ∷ pps) pps' h e =
    let (later, ran, same) = bind_inv (clear_range n pps) _ _ e in
    subst (λ x. all_none x ≡ true) (some_inj same) (clear_range-none (i + 1) n rs pps later h ran)
clear_range-none i (suc n) (r ∷ rs) (some pp ∷ pps) pps' h e =
    let (later, ran, same) = bind_inv (clear_range n pps) _ _ e in
    subst (λ x. all_none x ≡ true) (some_inj same) (clear_range-none (i + 1) n rs pps later h.1 ran)

-- The messages of the map stand under their numbers.
abbrev pub IsKeyed : List (ℕ × PrePrepareMsg) → Type 0
IsKeyed [] = Unit
IsKeyed ((t, pp) ∷ coll) = (pp.seq_number ≡ t) × IsKeyed coll

find_pre_prepare-keyed :
    (s : ℕ) (coll : List (ℕ × PrePrepareMsg)) (pp : PrePrepareMsg)
    → IsKeyed coll
    → find_pre_prepare s coll ≡ some pp
    → pp.seq_number ≡ s
unfolding find_pre_prepare
find_pre_prepare-keyed s [] pp keyed e = absurd (cc e)
find_pre_prepare-keyed s ((t, m) ∷ coll) pp (here, keyed) e = elim (Bool-cases (s == t)) [
  | inl same ↦
      ap (λ (x : PrePrepareMsg). x.seq_number) (sym (some_inj (then_inv (s == t) _ _ same e)))
      ∙ here
      ∙ sym (==→eq s t same)
  | inr other ↦ find_pre_prepare-keyed s coll pp keyed (else_inv (s == t) _ _ other e)
]

matching_inv :
    (r : Restriction) (o : Option PrePrepareMsg) (pp : PrePrepareMsg)
    → matching r o ≡ some pp
    → (o ≡ some pp) × (pp.digest_of_requests ≡ r.digest)
matching_inv r none pp e = absurd (cc e)
matching_inv r (some m) pp e = elim (Bool-cases (m.digest_of_requests == r.digest)) [
  | inl same ↦
      let here = some_inj (then_inv (m.digest_of_requests == r.digest) _ _ same e) in
      (
        ap some here,
        ap (λ (x : PrePrepareMsg). x.digest_of_requests) (sym here)
            ∙ ==→eq m.digest_of_requests r.digest same,
      )
  | inr other ↦ absurd (cc (else_inv (m.digest_of_requests == r.digest) _ _ other e))
]

fitting_inv :
    (i : ℕ) (r : Restriction) (coll : List (ℕ × PrePrepareMsg)) (pp : PrePrepareMsg)
    → IsKeyed coll
    → fitting i r coll ≡ some pp
    → Meets i r pp
unfolding fitting
fitting_inv i r coll pp keyed e = elim (Bool-cases r.is_null) [
  | inl null ↦ absurd (cc (then_inv r.is_null _ _ null e))
  | inr restricted ↦
      let (found, same) =
        matching_inv r (find_pre_prepare i coll) pp (else_inv r.is_null _ _ restricted e) in
      (restricted, same, find_pre_prepare-keyed i coll pp keyed found)
]

placed :
    (i n : ℕ) (r : Restriction) (rs : List Restriction) (o : Option PrePrepareMsg)
    (pps : List (Option PrePrepareMsg))
    → ((pp : PrePrepareMsg) → o ≡ some pp → Meets i r pp)
    → Fits (i + 1) n rs pps
    → Fits i (suc n) (r ∷ rs) (o ∷ pps)
placed i n r rs none pps h later = later
placed i n r rs (some pp) pps h later = (h pp refl, later)

-- Filling the empty entries.
pub fill_range-Fits :
    (i n : ℕ) (rs : List Restriction) (pps pps' : List (Option PrePrepareMsg))
    (coll : List (ℕ × PrePrepareMsg))
    → IsKeyed coll
    → all_none pps ≡ true
    → fill_range i n rs pps coll ≡ some pps'
    → Fits i n rs pps'
unfolding fill_range
fill_range-Fits i zero rs pps pps' coll keyed h e = subst (λ x. all_none x ≡ true) (some_inj e) h
fill_range-Fits i (suc n) [] pps pps' coll keyed h e = absurd (cc e)
fill_range-Fits i (suc n) (r ∷ rs) [] pps' coll keyed h e = absurd (cc e)
fill_range-Fits i (suc n) (r ∷ rs) (some pp ∷ pps) pps' coll keyed h e = absurd (cc h)
fill_range-Fits i (suc n) (r ∷ rs) (none ∷ pps) pps' coll keyed h e =
    let (later, ran, same) = bind_inv (fill_range (i + 1) n rs pps coll) _ _ e in
    subst (Fits i (suc n) (r ∷ rs)) (some_inj same) (
      placed i n r rs (fitting i r coll) later (λ pp found. fitting_inv i r coll pp keyed found)
        (fill_range-Fits (i + 1) n rs pps later coll keyed h ran))

-- The head of an array that fits, and the rest of it.
pub head_holds :
    (i n : ℕ) (r : Restriction) (rs : List Restriction) (o : Option PrePrepareMsg)
    (pps : List (Option PrePrepareMsg))
    → Fits i (suc n) (r ∷ rs) (o ∷ pps)
    → ((pp : PrePrepareMsg) → o ≡ some pp → Meets i r pp) × Fits (i + 1) n rs pps
head_holds i n r rs none pps h = ((λ pp e. absurd (cc e)), h)
head_holds i n r rs (some m) pps (meets, later) =
    ((λ pp e. subst (Meets i r) (some_inj e) meets), later)

-- A message that was missing takes its place.
pub set-Fits :
    (i n idx : ℕ) (rs : List Restriction) (pps : List (Option PrePrepareMsg)) (r : Restriction)
    (p : PrePrepareMsg)
    → idx < n
    → Fits i n rs pps
    → get_elem? rs idx ≡ some r
    → Meets (i + idx) r p
    → Fits i n rs (set pps idx (some p))
set-Fits i zero idx rs pps r p lt h found meets = absurd (omega arith)
set-Fits i (suc n) idx [] pps r p lt h found meets = absurd (cc found)
set-Fits i (suc n) idx (r' ∷ rs) [] r p lt h found meets = tt
set-Fits i (suc n) zero (r' ∷ rs) (o ∷ pps) r p lt h found meets = (
  subst (λ x. Meets i x p) (sym (some_inj found)) (subst (λ x. Meets x r p) (at_zero i) meets),
  (head_holds i n r' rs o pps h).1,
)
  where
    at_zero : (i : ℕ) → i + 0 ≡ i
    at_zero i = omega arith
set-Fits i (suc n) (suc idx) (r' ∷ rs) (o ∷ pps) r p lt h found meets =
    let (here, later) = head_holds i n r' rs o pps h in
    placed i n r' rs o (set pps idx (some p)) here (
      set-Fits (i + 1) n idx rs pps r p (omega arith) later found
        (subst (λ x. Meets x r p) (next i idx) meets))
  where
    next : (i idx : ℕ) → i + suc idx ≡ i + 1 + idx
    next i idx = omega arith
