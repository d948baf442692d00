-- ===== src/ViewChange/Restrictions/Order.antt =====
-- The set of prepared certificates: its order, and what an insertion keeps.
use concord_rcanopus.Base.{
  ℕ, ◌≤◌, ◌<◌, ◌≡◌, refl, true, false, List, [], ◌∷◌, arith, ◌⊎◌, inl, inr, length, Bool-cases,
}
use concord_rcanopus.ViewChange.{SlowElem, slow_before, slow_insert}

abbrev pub All {ℓ} : (SlowElem → Type ℓ) → List SlowElem → Type ℓ
All P [] = Unit
All P (e ∷ rest) = P e × All P rest

pub All-map {ℓ κ} :
    {P : SlowElem → Type ℓ} {Q : SlowElem → Type κ}
    → ((e : SlowElem) → P e → Q e)
    → (set : List SlowElem) → All P set
    → All Q set
All-map f [] h = tt
All-map f (e ∷ rest) h = (f e h.0, All-map f rest h.1)

abbrev pub view_of : SlowElem → ℕ
view_of e = e.cert.certificate_view

abbrev pub digest_of : SlowElem → ℕ
digest_of e = e.element.pre_prepare_digest

-- An element with a certificate for the sequence number, of a view that it can have.
abbrev pub IsCandidate : ℕ → SlowElem → Type 0
IsCandidate s e =
    (e.element.seq_num ≡ s)
    × (0 < length e.cert.certificate_sig)
    × (view_of e ≤ e.element.origin_view)

-- The set is in the order of `SlowElemCompare`, as far as views go.
abbrev pub IsOrdered : List SlowElem → Type 0
IsOrdered [] = Unit
IsOrdered (e ∷ rest) = All (λ x. view_of x ≤ view_of e) rest × IsOrdered rest

slow_before-le : (a b : SlowElem) → slow_before a b ≡ true → view_of b ≤ view_of a
unfolding slow_before
slow_before-le a b h = ground arith

pub All-slow_insert {ℓ} :
    (P : SlowElem → Type ℓ) (a : SlowElem) (set : List SlowElem)
    → P a
    → All P set
    → All P (slow_insert a set)
unfolding slow_insert
All-slow_insert P a [] pa h = (pa, tt)
All-slow_insert P a (b ∷ rest) pa h = elim (Bool-cases (slow_before a b)) [
  | inl before ↦ rw before (pa, h)
  | inr not_before ↦ elim (Bool-cases (slow_before b a)) [
    | inl after ↦ rw (not_before, after) (h.0, All-slow_insert P a rest pa h.1)
    | inr same ↦ rw (not_before, same) h
  ]
]

pub IsOrdered-slow_insert :
    (a : SlowElem) (set : List SlowElem) → IsOrdered set → IsOrdered (slow_insert a set)
unfolding slow_insert
IsOrdered-slow_insert a [] h = (tt, tt)
IsOrdered-slow_insert a (b ∷ rest) h = elim (Bool-cases (slow_before a b)) [
  | inl before ↦
      let le = slow_before-le a b before in
      rw before ((le, All-map (λ e h'. omega (arith, le)) rest h.0), h)
  | inr not_before ↦ elim (Bool-cases (slow_before b a)) [
    | inl after ↦
        rw (not_before, after)
          (
            All-slow_insert (λ x. view_of x ≤ view_of b) a rest (slow_before-le b a after) h.0,
            IsOrdered-slow_insert a rest h.1,
          )
    | inr same ↦ rw (not_before, same) h
  ]
]

-- A view and a digest that some element of the set has.
abbrev pub Covers : List SlowElem → ℕ → ℕ → Type 0
Covers [] v d = ⊥
Covers (e ∷ rest) v d = ((view_of e ≡ v) × (digest_of e ≡ d)) ⊎ Covers rest v d

slow_before_tie :
    (a b : SlowElem)
    → slow_before a b ≡ false
    → slow_before b a ≡ false
    → (view_of b ≡ view_of a) × (digest_of b ≡ digest_of a)
unfolding slow_before
slow_before_tie a b h k = ground arith

pub Covers-slow_insert_self :
    (a : SlowElem) (set : List SlowElem) → Covers (slow_insert a set) (view_of a) (digest_of a)
unfolding slow_insert
Covers-slow_insert_self a [] = inl (refl, refl)
Covers-slow_insert_self a (b ∷ rest) = elim (Bool-cases (slow_before a b)) [
  | inl before ↦ rw before (inl (refl, refl))
  | inr not_before ↦ elim (Bool-cases (slow_before b a)) [
    | inl after ↦ rw (not_before, after) (inr (Covers-slow_insert_self a rest))
    | inr same ↦ rw (not_before, same) (inl (slow_before_tie a b not_before same))
  ]
]

pub Covers-slow_insert :
    (a : SlowElem) (set : List SlowElem) (v d : ℕ) → Covers set v d → Covers (slow_insert a set) v d
unfolding slow_insert
Covers-slow_insert a [] v d h = absurd h
Covers-slow_insert a (b ∷ rest) v d h = elim (Bool-cases (slow_before a b)) [
  | inl before ↦ rw before (inr h)
  | inr not_before ↦ elim (Bool-cases (slow_before b a)) [
    | inl after ↦
        rw (not_before, after)
          (elim h [ inl here ↦ inl here | inr later ↦ inr (Covers-slow_insert a rest v d later) ])
    | inr same ↦ rw (not_before, same) h
  ]
]
