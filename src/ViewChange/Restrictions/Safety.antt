-- ===== src/ViewChange/Restrictions/Safety.antt =====
-- The choice for one sequence number, and the restrictions of a window.
use concord_rcanopus.Base.{
  ℕ, ◌+◌, ◌≤◌, ◌<◌, ◌≡◌, refl, sym, Bool, true, false, Option, none, some, List, [], ◌∷◌, arith,
  length, le→leb, eq→==, lt→ltb,
}
use concord_rcanopus.ViewChange.{
  PreparedCertificate, Element, Iterator, Params, SlowElem, slow_insert, slow_before, collect_slow,
  check_slow,
}
use concord_rcanopus.ViewChange.Fast.{votes, collect_fast-votes}
use concord_rcanopus.ViewChange.Advance.{IsLegal, AllLive, advance_iterators-AllLive, AllLive-From}
use concord_rcanopus.ViewChange.Restrictions.{
  is_certified, select_slow, min_relevant_fast_view, selected, compute_restrictions_for_seq_num,
}
use concord_rcanopus.ViewChange.Restrictions.Select.{
  IsChosen, collect_slow-IsSlowSet, check_slow_path_certificates-true, select_slow-IsBest,
  select_slow-IsChosen,
}

module _ (combine : ℕ → ℕ → ℕ → ℕ) (verify : ℕ → List ℕ → Bool) (p : Params) where
  -- Why a choice is right: `slow` is the certificate chosen of those offered, and `fast` the digest
  -- with enough votes of later views.
  abbrev pub IsJustified : ℕ → List Iterator → Option SlowElem → Option ℕ → Type 0
  IsJustified s iters slow fast =
      IsChosen combine verify s iters slow
      × ((d : ℕ) → fast ≡ some d → p.f + p.c + 1 ≤ votes s (min_relevant_fast_view slow) d iters)
      × (fast ≡ none → (d : ℕ) → votes s (min_relevant_fast_view slow) d iters < p.f + p.c + 1)

  -- For legal messages that offer something at or past the sequence number, and where more than one
  -- vote is needed, the choice meets no failed assertion. A certificate that is chosen is offered by
  -- a message and valid; each valid certificate that is offered has no higher view than the chosen
  -- one, unless an invalid one that is offered for the same view and digest hides it. The digest is
  -- that of enough fast votes of views above the chosen certificate, or else that certificate's, or
  -- else there is none; and the messages that are left offer something past the sequence number.
  pub compute_restrictions_for_seq_num-IsJustified :
      (s upper : ℕ) (iters : List Iterator)
      → 1 ≤ p.f + p.c
      → s ≤ upper
      → 0 < length iters
      → AllLive s iters
      → (slow : Option SlowElem) × (fast : Option ℕ) × (iters' : List Iterator)
        × (compute_restrictions_for_seq_num combine verify p s iters upper
            ≡ some (selected fast slow, iters'))
        × IsJustified s iters slow fast
        × AllLive (s + 1) iters'
  unfolding compute_restrictions_for_seq_num
  compute_restrictions_for_seq_num-IsJustified s upper iters two inside some_iters live =
      let (set, collects, ok, covered, _) = collect_slow-IsSlowSet s iters [] live (tt, tt) in
      let (slow, selects, best) = select_slow-IsBest combine verify s set ok in
      let (fast, votes_run, enough, short) =
        collect_fast-votes s (min_relevant_fast_view slow) (p.f + p.c + 1) iters (omega arith)
          (AllLive-From s iters live) in
      let (iters', advances, live') = advance_iterators-AllLive s upper iters live in
      (
        slow,
        fast,
        iters',
        rw
            (
              lt→ltb 0 (length iters) some_iters,
              le→leb s upper inside,
              collects,
              check_slow_path_certificates-true s set ok,
              selects,
              votes_run,
              advances,
            )
            refl,
        (
          select_slow-IsChosen combine verify s iters set slow collects selects covered best,
          enough,
          short,
        ),
        live',
      )

votes-le-length : (s v d : ℕ) (iters : List Iterator) → votes s v d iters ≤ length iters
votes-le-length s v d [] = omega arith
votes-le-length s v d ([] ∷ rest) = omega (arith, votes-le-length s v d rest)
votes-le-length s v d ((e ∷ later) ∷ rest) = ground (arith, votes-le-length s v d rest)

collect_pair :
    (s : ℕ) (x y : Element) (xs ys : Iterator) (cx cy : PreparedCertificate)
    → x.seq_num ≡ s
    → y.seq_num ≡ s
    → x.certificate ≡ some cx
    → y.certificate ≡ some cy
    → cx.certificate_view ≡ cy.certificate_view
    → x.pre_prepare_digest ≡ y.pre_prepare_digest
    → collect_slow s ((x ∷ xs) ∷ (y ∷ ys) ∷ []) [] ≡ some (record { element = x; cert = cx } ∷ [])
unfolding collect_slow slow_insert slow_before
collect_pair s x y xs ys cx cy ex ey ecx ecy views digests = ground arith

legal_sig :
    (e : Element) (c : PreparedCertificate)
    → IsLegal e
    → e.certificate ≡ some c
    → 0 < length c.certificate_sig
legal_sig e c legal h = ground arith

select_invalid :
    (combine : ℕ → ℕ → ℕ → ℕ) (verify : ℕ → List ℕ → Bool) (s : ℕ) (e : SlowElem)
    → e.element.seq_num ≡ s
    → 0 < length e.cert.certificate_sig
    → is_certified combine verify e ≡ false
    → select_slow combine verify s (e ∷ []) ≡ some none
unfolding select_slow
select_invalid combine verify s e at signed bad =
    rw (eq→== s e.element.seq_num (sym at), lt→ltb 0 _ signed, bad) refl

-- A certificate with a signature that does not verify hides a valid one: when `f` + `c` is at least 2
-- and exactly two messages are left to read, with legal elements at a sequence number of the window,
-- the first with an invalid certificate for the same view and digest as the second's valid one, there
-- is no restriction.
pub invalid_hides_valid :
    (combine : ℕ → ℕ → ℕ → ℕ) (verify : ℕ → List ℕ → Bool) (p : Params) (s upper : ℕ)
    (x y : Element) (xs ys : Iterator) (cx cy : PreparedCertificate)
    → 2 ≤ p.f + p.c
    → s ≤ upper
    → AllLive s ((x ∷ xs) ∷ (y ∷ ys) ∷ [])
    → x.seq_num ≡ s
    → y.seq_num ≡ s
    → x.certificate ≡ some cx
    → y.certificate ≡ some cy
    → cx.certificate_view ≡ cy.certificate_view
    → x.pre_prepare_digest ≡ y.pre_prepare_digest
    → is_certified combine verify (record { element = x; cert = cx }) ≡ false
    → is_certified combine verify (record { element = y; cert = cy }) ≡ true
    → (iters' : List Iterator) × (compute_restrictions_for_seq_num combine verify p s
          ((x ∷ xs) ∷ (y ∷ ys) ∷ [])
          upper
        ≡ some ((false, 0), iters'))
unfolding compute_restrictions_for_seq_num check_slow
invalid_hides_valid combine verify p s upper x y xs ys cx cy many inside live ex ey ecx ecy views
      digests bad good =
    let iters : List Iterator = (x ∷ xs) ∷ (y ∷ ys) ∷ [] in
    let (fast, votes_run, enough, short) =
      collect_fast-votes s 0 (p.f + p.c + 1) iters (omega arith) (AllLive-From s iters live) in
    let (iters', advances, _) = advance_iterators-AllLive s upper iters live in
    let no_fast : fast ≡ none = too_few fast enough in
    (
      iters',
      rw
          (
            le→leb s upper inside,
            collect_pair s x y xs ys cx cy ex ey ecx ecy views digests,
            none_selected,
            votes_run,
            no_fast,
            advances,
          )
          refl,
    )
  where
    none_selected :
        select_slow combine verify s (record { element = x; cert = cx } ∷ []) ≡ some none
    none_selected =
        select_invalid combine verify s (record { element = x; cert = cx }) ex
          (legal_sig x cx live.0.1 ecx) bad

    too_few :
        (fast : Option ℕ)
        → ((d : ℕ) → fast ≡ some d → p.f + p.c + 1 ≤ votes s 0 d ((x ∷ xs) ∷ (y ∷ ys) ∷ []))
        → fast ≡ none
    too_few none h = refl
    too_few (some d) h =
        absurd (omega (arith, h d refl, votes-le-length s 0 d ((x ∷ xs) ∷ (y ∷ ys) ∷ [])))
