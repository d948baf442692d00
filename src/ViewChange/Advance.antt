-- ===== src/ViewChange/Advance.antt =====
-- The iterators after a sequence number: `advance_iterators` ends, and leaves those that go on.
use native.Mathlib.Decide.{ℕ_discrete, dec_lt}
use concord_rcanopus.Base.{
  ℕ, zero, suc, ◌+◌, ◌-◌, ◌≤◌, ◌<◌, ◌≡◌, refl, ap, true, Option, none, some, List, [], ◌∷◌, arith,
  inl, inr, length, get_elem?, get_elem?_lt, set, length-set, get_elem?-set, get_elem?-lt, eq→==,
  lt→ltb, not_lt→ltb, Bool-cases,
}
use concord_rcanopus.ViewChange.{
  Element, Iterator, advance_at, advance_iterators, is_needed, swap_remove, pop_back, last_of,
}
use concord_rcanopus.ViewChange.Fast.{From}

-- What `ViewChangeMsg::checkElements` has established of an element: a certificate has a signature
-- and a view that is not above the element's own.
abbrev pub IsLegal : Element → Type 0
IsLegal e = elim e.certificate [
  | none ↦ Unit
  | some c ↦ (0 < length c.certificate_sig) × (c.certificate_view ≤ e.origin_view)
]

-- Sequence numbers rise along a message, from a bound on.
abbrev pub Rising : ℕ → Iterator → Type 0
Rising b [] = Unit
Rising b (e ∷ rest) = (b ≤ e.seq_num) × IsLegal e × Rising (e.seq_num + 1) rest

-- An iterator that still has an element, at or past a sequence number.
abbrev pub Live : ℕ → Iterator → Type 0
Live s [] = ⊥
Live s (e ∷ rest) = Rising s (e ∷ rest)

abbrev pub AllLive : ℕ → List Iterator → Type 0
AllLive s [] = Unit
AllLive s (iter ∷ rest) = Live s iter × AllLive s rest

-- Those before the index have gone on; those from it on have not.
abbrev Between : ℕ → ℕ → List Iterator → Type 0
Between s idx iters =
    (i : ℕ) (iter : Iterator)
    → get_elem? iters i ≡ some iter
    → (i < idx → Live (s + 1) iter) × (idx ≤ i → Live s iter)

get-pop_back :
    (iters : List Iterator) (i : ℕ) (iter : Iterator)
    → get_elem? (pop_back iters) i ≡ some iter
    → (get_elem? iters i ≡ some iter) × (i + 1 < length iters)
get-pop_back [] i iter e = absurd (cc e)
get-pop_back (x ∷ []) i iter e = absurd (cc e)
get-pop_back (x ∷ y ∷ rest) zero iter e = (e, omega arith)
get-pop_back (x ∷ y ∷ rest) (suc i) iter e =
    let (e', lt) = get-pop_back (y ∷ rest) i iter e in (e', omega arith)

length-pop_back : (iters : List Iterator) → length (pop_back iters) ≡ length iters - 1
length-pop_back [] = refl
length-pop_back (x ∷ []) = omega arith
length-pop_back (x ∷ y ∷ rest) = omega (arith, length-pop_back (y ∷ rest))

get-last_of :
    (iters : List Iterator) (start : Iterator)
    → 0 < length iters
    → get_elem? iters (length iters - 1) ≡ some (last_of iters start)
get-last_of [] start h = absurd (omega arith)
get-last_of (x ∷ []) start h = refl
get-last_of (x ∷ y ∷ rest) start h =
    let here = get-last_of (y ∷ rest) x (omega arith) in
    let e : suc (suc (length rest)) - 1 ≡ suc (suc (length rest) - 1) = omega arith in rw e here

-- The two ways on from an index.
Between-keep :
    (s idx : ℕ) (iters : List Iterator) (iter : Iterator)
    → Between s idx iters
    → Live (s + 1) iter
    → Between s (idx + 1) (set iters idx iter)
Between-keep s idx iters iter inv live i it e = elim (get_elem?-set iters idx i iter it e) [
  | inl (here, same) ↦ ((λ _. rw same live), λ h. absurd (omega arith))
  | inr (there, old) ↦ ((λ h. (inv i it old).0 (omega arith)), λ h. (inv i it old).1 (omega arith))
]

Between-skip :
    (s idx : ℕ) (iters : List Iterator) (iter : Iterator)
    → Between s idx iters
    → get_elem? iters idx ≡ some iter
    → Live (s + 1) iter
    → Between s (idx + 1) iters
Between-skip s idx iters iter inv at live i it e = elim (ℕ_discrete i idx) [
  | yes here ↦ (
    (λ _. let same : iter ≡ it = cc (at, e, ap (get_elem? iters) here) in rw (← same) live),
    λ h. absurd (omega arith),
  )
  | no there ↦ ((λ h. (inv i it e).0 (omega arith)), λ h. (inv i it e).1 (omega arith))
]

Between-drop :
    (s idx : ℕ) (iters : List Iterator) (moved : Iterator)
    → Between s idx iters
    → idx < length iters
    → Between s idx (swap_remove (set iters idx moved) idx)
Between-drop s idx iters moved inv inside i it e =
    let l1 : List Iterator = set iters idx moved in
    let (e2, short) = get-pop_back (set l1 idx (last_of l1 [])) i it e in
    let size : length l1 ≡ length iters = length-set iters idx moved in
    let size2 : length (set l1 idx (last_of l1 [])) ≡ length l1 =
      length-set l1 idx (last_of l1 []) in
    elim (get_elem?-set l1 idx i (last_of l1 []) it e2) [
      | inl (here, same) ↦
          let at_end = get-last_of l1 [] (omega (arith, size)) in
          elim (get_elem?-set iters idx (length l1 - 1) moved (last_of l1 []) at_end) [
            | inl (clash, _) ↦ absurd (omega (arith, size, size2, short))
            | inr (_, old) ↦ (
              (λ h. absurd (omega arith)),
              λ h. rw same ((inv (length l1 - 1) _ old).1 (omega (arith, size))),
            )
          ]
      | inr (there, old1) ↦ elim (get_elem?-set iters idx i moved it old1) [
        | inl (here, _) ↦ absurd (there here)
        | inr (_, old) ↦ inv i it old
      ]
    ]

length-swap_remove :
    (idx : ℕ) (iters : List Iterator) (moved : Iterator)
    → length (swap_remove (set iters idx moved) idx) ≡ length iters - 1
length-swap_remove idx iters moved = omega (
  arith,
  length-pop_back (set (set iters idx moved) idx (last_of (set iters idx moved) [])),
  length-set (set iters idx moved) idx (last_of (set iters idx moved) []),
  length-set iters idx moved,
)

-- One iterator that stands at the sequence number or past it.
Live-past :
    (s : ℕ) (e : Element) (rest : Iterator)
    → Live s (e ∷ rest)
    → s < e.seq_num
    → Live (s + 1) (e ∷ rest)
Live-past s e rest h past = (omega arith, h.1, h.2)

Live-next :
    (s upper : ℕ) (e : Element) (rest : Iterator)
    → Live s (e ∷ rest)
    → e.seq_num ≡ s
    → is_needed upper rest ≡ true
    → Live (s + 1) rest
Live-next s upper e [] h at needed = absurd (cc needed)
Live-next s upper e (e' ∷ rest) h at needed = (omega (arith, h.2.0), h.2.1, h.2.2)

-- One round of the loop: no fault, and one index or one iterator is used up.
abbrev Moves : ℕ → ℕ → ℕ → List Iterator → Option (ℕ × List Iterator) → Type 0
Moves s upper idx iters r =
    (idx' : ℕ) × (iters' : List Iterator) × (r ≡ some (idx', iters'))
    × Between s idx' iters'
    × (idx' ≤ length iters')
    × (length iters' - idx' < length iters - idx)

advance_at-Moves :
    (s upper idx : ℕ) (iters : List Iterator) (iter : Iterator)
    → Between s idx iters
    → get_elem? iters idx ≡ some iter
    → Live s iter
    → Moves s upper idx iters (advance_at s upper idx iters)
unfolding advance_at
advance_at-Moves s upper idx iters [] inv at live = absurd live
advance_at-Moves s upper idx iters (e ∷ rest) inv at live = elim (dec_lt s e.seq_num) [
  | yes past ↦ (
    idx + 1,
    iters,
    rw (at, lt→ltb s _ past) refl,
    Between-skip s idx iters (e ∷ rest) inv at (Live-past s e rest live past),
    omega (arith, inside),
    omega (arith, inside),
  )
  | no here ↦ elim (Bool-cases (is_needed upper rest)) [
    | inl needed ↦ (
      idx + 1,
      set iters idx rest,
      rw (at, not_lt→ltb s _ here, eq→== e.seq_num s (omega (arith, live.0)), needed) refl,
      Between-keep s idx iters rest inv
          (Live-next s upper e rest live (omega (arith, live.0)) needed),
      omega (arith, inside, length-set iters idx rest),
      omega (arith, inside, length-set iters idx rest),
    )
    | inr unneeded ↦ (
      idx,
      swap_remove (set iters idx rest) idx,
      rw (at, not_lt→ltb s _ here, eq→== e.seq_num s (omega (arith, live.0)), unneeded) refl,
      Between-drop s idx iters rest inv inside,
      omega (arith, inside, length-swap_remove idx iters rest),
      omega (arith, inside, length-swap_remove idx iters rest),
    )
  ]
]
  where
    inside : idx < length iters
    inside = get_elem?-lt iters idx (e ∷ rest) at

advance_iterators-Between :
    (fuel s upper idx : ℕ) (iters : List Iterator)
    → Between s idx iters
    → idx ≤ length iters
    → length iters - idx < fuel
    → (iters' : List Iterator) × (advance_iterators fuel s upper idx iters ≡ some iters')
      × Between s (length iters') iters'
unfolding advance_iterators
advance_iterators-Between zero s upper idx iters inv inside enough = absurd (omega arith)
advance_iterators-Between (suc fuel) s upper idx iters inv inside enough =
    elim (dec_lt idx (length iters)) [
      | yes more ↦
          let (iter, at) = get_elem?_lt iters idx more in
          let (idx', iters', moves, inv', inside', less) =
            advance_at-Moves s upper idx iters iter inv at ((inv idx iter at).1 (omega arith)) in
          let (iters'', runs, inv'') =
            advance_iterators-Between fuel s upper idx' iters' inv' inside' (omega (arith, less)) in
          (iters'', rw (lt→ltb idx _ more, moves, advance_iterators) runs, inv'')
      | no done ↦
          let e : idx ≡ length iters = omega arith in
          (iters, rw (advance_iterators, not_lt→ltb idx _ done) refl, rw e at inv)
    ]

AllLive-get :
    (s : ℕ) (iters : List Iterator) (i : ℕ) (iter : Iterator)
    → AllLive s iters
    → get_elem? iters i ≡ some iter
    → Live s iter
AllLive-get s [] i iter h e = absurd (cc e)
AllLive-get s (x ∷ rest) zero iter h e = let same : x ≡ iter = cc e in rw (← same) h.0
AllLive-get s (x ∷ rest) (suc i) iter h e = AllLive-get s rest i iter h.1 e

get-AllLive :
    (s : ℕ) (iters : List Iterator)
    → ((i : ℕ) (iter : Iterator) → get_elem? iters i ≡ some iter → Live s iter)
    → AllLive s iters
get-AllLive s [] h = tt
get-AllLive s (x ∷ rest) h = (h 0 x refl, get-AllLive s rest (λ i iter e. h (suc i) iter e))

-- From iterators over legal messages that all stand at or past a sequence number, the loop that
-- advances them meets no failed assertion and ends within its fuel, one round more than there are
-- iterators; every iterator that it leaves still has an element, past that sequence number.
pub advance_iterators-AllLive :
    (s upper : ℕ) (iters : List Iterator)
    → AllLive s iters
    → (iters' : List Iterator) × (advance_iterators (suc (length iters)) s upper 0 iters
        ≡ some iters')
      × AllLive (s + 1) iters'
advance_iterators-AllLive s upper iters live =
    let (iters', runs, inv) =
      advance_iterators-Between (suc (length iters)) s upper 0 iters
        (λ i iter e. ((λ h. absurd (omega arith)), λ _. AllLive-get s iters i iter live e))
        (omega arith) (omega arith) in
    (
      iters',
      runs,
      get-AllLive (s + 1) iters' (λ i iter e. (inv i iter e).0 (get_elem?-lt iters' i iter e)),
    )

pub AllLive-From : (s : ℕ) (iters : List Iterator) → AllLive s iters → From s iters
AllLive-From s [] h = tt
AllLive-From s ([] ∷ rest) h = absurd h.0
AllLive-From s ((e ∷ later) ∷ rest) h = (h.0.0, AllLive-From s rest h.1)
