-- ===== src/ViewChange/Fast.antt =====
-- The votes of the fast path: the digest that `collect_fast` selects has enough of them.
use concord_rcanopus.Base.{
  ℕ, ◌+◌, ◌≤◌, ◌<◌, ◌≡◌, refl, Bool, true, false, ◌&&◌, Option, none, some, List, [], ◌∷◌, arith,
  leb, ◌==◌, if◌then◌else◌, inl, inr, le→leb, Bool-cases,
}
use concord_rcanopus.ViewChange.{
  Element, Iterator, Counters, counter_of, count_vote, has_counter, collect_fast,
}

-- Every iterator has a current element, of at least the given sequence number.
abbrev pub From : ℕ → List Iterator → Type 0
From s [] = Unit
From s ([] ∷ rest) = ⊥
From s ((e ∷ later) ∷ rest) = (s ≤ e.seq_num) × From s rest

abbrev pub is_vote : ℕ → ℕ → ℕ → Element → Bool
is_vote s min_view d e = (e.seq_num == s && leb min_view e.origin_view) && e.pre_prepare_digest == d

-- The iterators whose current element votes for a digest: it has the sequence number and a view
-- that is not too old.
abbrev pub votes : ℕ → ℕ → ℕ → List Iterator → ℕ
votes s min_view d [] = 0
votes s min_view d ([] ∷ rest) = votes s min_view d rest
votes s min_view d ((e ∷ later) ∷ rest) =
    (if is_vote s min_view d e then 1 else 0) + votes s min_view d rest

counter_of-count_vote :
    (d d' : ℕ) (counters : Counters)
    → counter_of d (count_vote d' counters) ≡ (if d' == d then 1 else 0) + counter_of d counters
counter_of-count_vote d d' [] = ground arith
counter_of-count_vote d d' ((d'', k) ∷ rest) = ground (arith, counter_of-count_vote d d' rest)

counter_of-has_counter :
    (d : ℕ) (counters : Counters) → has_counter d counters ≡ false → counter_of d counters ≡ 0
counter_of-has_counter d [] h = refl
counter_of-has_counter d ((d', k) ∷ rest) h = ground (arith, counter_of-has_counter d rest)

-- What the collection says of the votes, those counted before included.
abbrev Outcome : ℕ → ℕ → ℕ → List Iterator → Counters → Option ℕ → Type 0
Outcome s min_view needed iters counters none =
    (d : ℕ) → votes s min_view d iters + counter_of d counters < needed
Outcome s min_view needed iters counters (some d) =
    needed ≤ votes s min_view d iters + counter_of d counters

module _ (s min_view needed : ℕ) (e : Element) (later : Iterator) (rest : List Iterator)
    (counters : Counters) where
  relevant : Bool
  relevant = e.seq_num == s && leb min_view e.origin_view

  counters' : Counters
  counters' = if relevant then count_vote e.pre_prepare_digest counters else counters

  below_step :
      2 ≤ needed
      → (relevant
          && has_counter e.pre_prepare_digest counters
          && counter_of e.pre_prepare_digest counters + 1 == needed)
        ≡ false
      → ((d : ℕ) → counter_of d counters < needed)
      → (d : ℕ) → counter_of d counters' < needed
  unfolding relevant counters'
  below_step two kept below d = ground (
    arith,
    counter_of-count_vote d e.pre_prepare_digest counters,
    counter_of-has_counter e.pre_prepare_digest counters,
    below d,
    below e.pre_prepare_digest,
  )

  total_step :
      (d : ℕ)
      → votes s min_view d rest + counter_of d counters'
        ≡ votes s min_view d ((e ∷ later) ∷ rest) + counter_of d counters
  unfolding relevant counters'
  total_step d = ground (arith, counter_of-count_vote d e.pre_prepare_digest counters)

  chosen_step :
      (relevant
          && has_counter e.pre_prepare_digest counters
          && counter_of e.pre_prepare_digest counters + 1 == needed)
        ≡ true
      → Outcome s min_view needed ((e ∷ later) ∷ rest) counters (some e.pre_prepare_digest)
  unfolding relevant
  chosen_step h = ground arith

  Outcome-step :
      (r : Option ℕ)
      → Outcome s min_view needed rest counters' r
      → Outcome s min_view needed ((e ∷ later) ∷ rest) counters r
  Outcome-step none h = λ d. omega (arith, h d, total_step d)
  Outcome-step (some d) h = omega (arith, total_step d)

collect_fast-Outcome :
    (s min_view needed : ℕ) (iters : List Iterator) (counters : Counters)
    → 2 ≤ needed
    → From s iters
    → ((d : ℕ) → counter_of d counters < needed)
    → (r : Option ℕ) × (collect_fast s min_view needed iters counters ≡ some r)
      × Outcome s min_view needed iters counters r
unfolding collect_fast relevant counters'
collect_fast-Outcome s min_view needed [] counters two from below =
    (none, refl, λ d. omega (arith, below d))
collect_fast-Outcome s min_view needed ([] ∷ rest) counters two from below = absurd from
collect_fast-Outcome s min_view needed ((e ∷ later) ∷ rest) counters two from below =
    elim (Bool-cases (
      fits
      && has_counter e.pre_prepare_digest counters
      && counter_of e.pre_prepare_digest counters + 1 == needed)) [
        | inl chosen ↦ (
          some e.pre_prepare_digest,
          rw (le→leb s e.seq_num from.0, chosen) refl,
          chosen_step s min_view needed e later rest counters chosen,
        )
        | inr kept ↦
            let (r, runs, outcome) =
              collect_fast-Outcome s min_view needed rest
                (counters' s min_view needed e later rest counters) two from.1
                (below_step s min_view needed e later rest counters two kept below) in
            (
              r,
              rw (le→leb s e.seq_num from.0, kept) runs,
              Outcome-step s min_view needed e later rest counters r outcome,
            )
      ]
  where
    fits : Bool
    fits = e.seq_num == s && leb min_view e.origin_view

-- With at least two votes needed and every iterator at or past the sequence number, the collection
-- meets no failed assertion; it selects a digest with the needed number of votes, and selects none
-- only if no digest has that many.
pub collect_fast-votes :
    (s min_view needed : ℕ) (iters : List Iterator)
    → 2 ≤ needed
    → From s iters
    → (r : Option ℕ) × (collect_fast s min_view needed iters [] ≡ some r)
      × ((d : ℕ) → r ≡ some d → needed ≤ votes s min_view d iters)
      × (r ≡ none → (d : ℕ) → votes s min_view d iters < needed)
collect_fast-votes s min_view needed iters two from =
    let (r, runs, outcome) =
      collect_fast-Outcome s min_view needed iters [] two from (λ d. omega arith) in
    (r, runs, enough r outcome, short r outcome)
  where
    enough :
        (r : Option ℕ)
        → Outcome s min_view needed iters [] r
        → (d : ℕ) → r ≡ some d
        → needed ≤ votes s min_view d iters
    enough none h d e = absurd (cc e)
    enough (some d') h d e = ground arith

    short :
        (r : Option ℕ)
        → Outcome s min_view needed iters [] r
        → r ≡ none
        → (d : ℕ) → votes s min_view d iters < needed
    short none h e d = omega (arith, h d)
    short (some d') h e d = absurd (cc e)
