-- ===== src/ViewChange/Restrictions/Window.antt =====
-- `computeRestrictions`: the whole window.
use concord_rcanopus.Base.{
  ℕ, zero, suc, ◌+◌, ◌-◌, ◌≤◌, ◌≡◌, ◌≢◌, refl, Bool, true, false, ◌&&◌, not, Option, none, some,
  List, [], ◌∷◌, map, arith, ltb, leb, ◌==◌, if◌then◌else◌, ◌⊎◌, inl, inr, length, Bool-cases,
}
use concord_rcanopus.ViewChange.{Iterator, Params, SlowElem, ViewChangeMsg, go_to_at_least}
use concord_rcanopus.ViewChange.Advance.{Rising, AllLive}
use concord_rcanopus.ViewChange.Restrictions.{
  Restriction, selected, restrict_window, make_iterators, keep_iterator, set_null,
  compute_restrictions_for_seq_num, compute_restrictions, work_window_size, checkpoint_window_size,
  is_empty,
}
use concord_rcanopus.ViewChange.Restrictions.Safety.{
  IsJustified, compute_restrictions_for_seq_num-IsJustified,
}

-- Every restriction of the array, which starts at a sequence number, is within a bound, and is not
-- to the digest of a null request.
abbrev pub Within : ℕ → ℕ → ℕ → List Restriction → Type 0
Within null curr bound [] = Unit
Within null curr bound (r ∷ rest) =
    (r.is_null ≡ false → (curr ≤ bound) × (r.digest ≢ null)) × Within null (curr + 1) bound rest

Within-mono :
    (null curr b b' : ℕ) (array : List Restriction)
    → b ≤ b'
    → Within null curr b array
    → Within null curr b' array
Within-mono null curr b b' [] le h = tt
Within-mono null curr b b' (r ∷ rest) le h =
    ((λ e. (omega (arith, (h.0 e).0), (h.0 e).1)), Within-mono null (curr + 1) b b' rest le h.1)

-- Messages whose elements rise from a bound on.
abbrev pub AllRising : ℕ → List (Option ViewChangeMsg) → Type 0
AllRising b [] = Unit
AllRising b (none ∷ rest) = AllRising b rest
AllRising b (some vc ∷ rest) = Rising b vc.elements × AllRising b rest

Rising-mono : (a b : ℕ) (elements : Iterator) → a ≤ b → Rising b elements → Rising a elements
Rising-mono a b [] le h = tt
Rising-mono a b (e ∷ rest) le h = (omega arith, h.1, h.2)

go_to_at_least-Rising :
    (lb b : ℕ) (elements : Iterator) → Rising b elements → Rising lb (go_to_at_least lb elements)
unfolding go_to_at_least
go_to_at_least-Rising lb b [] h = tt
go_to_at_least-Rising lb b (e ∷ rest) h = elim (Bool-cases (ltb e.seq_num lb)) [
  | inl before ↦ rw before (go_to_at_least-Rising lb (e.seq_num + 1) rest h.2)
  | inr reached ↦ rw reached (ground arith, h.1, h.2)
]

keep_iterator-AllLive :
    (s : ℕ) (iter : Iterator) (iters : List Iterator)
    → Rising s iter
    → AllLive s iters
    → AllLive s (keep_iterator iter iters)
keep_iterator-AllLive s [] iters h live = live
keep_iterator-AllLive s (e ∷ rest) iters h live = (h, live)

make_iterators-AllLive :
    (lb b : ℕ) (msgs : List (Option ViewChangeMsg))
    → AllRising b msgs
    → AllLive lb (make_iterators lb msgs)
unfolding make_iterators
make_iterators-AllLive lb b [] h = tt
make_iterators-AllLive lb b (none ∷ rest) h = make_iterators-AllLive lb b rest h
make_iterators-AllLive lb b (some vc ∷ rest) h =
    keep_iterator-AllLive lb (go_to_at_least lb vc.elements) (make_iterators lb rest)
      (go_to_at_least-Rising lb b vc.elements h.0) (make_iterators-AllLive lb b rest h.1)

-- The ends that are reported, for a given last restricted number.
abbrev pub IsRange : ℕ → ℕ → ℕ → Type 0
IsRange lb lo hi =
    ((lo ≡ 0) × (hi ≡ 0))
    ⊎ ((lo ≡ lb + 1)
        × ((hi ≡ lb + work_window_size) ⊎ (hi ≡ lb + work_window_size - checkpoint_window_size)))

module _ (combine : ℕ → ℕ → ℕ → ℕ) (verify : ℕ → List ℕ → Bool) (p : Params) where
  -- Each entry of the array, from a number on, is the choice for its number, given what the iterators
  -- have left there: it is null exactly where there is no choice, or the choice is a null request's
  -- digest, and has the chosen digest; without iterators it is null.
  abbrev pub Follows : ℕ → ℕ → List Restriction → List Iterator → Type 0
  Follows upper curr [] iters = Unit
  Follows upper curr (r ∷ rest) [] = (r.is_null ≡ true) × Follows upper (curr + 1) rest []
  Follows upper curr (r ∷ rest) (i ∷ iters) =
      (slow : Option SlowElem) × (fast : Option ℕ) × (iters' : List Iterator)
      × (compute_restrictions_for_seq_num combine verify p curr (i ∷ iters) upper
          ≡ some (selected fast slow, iters'))
      × IsJustified combine verify p curr (i ∷ iters) slow fast
      × (r.digest ≡ (selected fast slow).1)
      × (r.is_null ≡ not ((selected fast slow).0 && not ((selected fast slow).1 == p.null_digest)))
      × Follows upper (curr + 1) rest iters'

module _ (combine : ℕ → ℕ → ℕ → ℕ) (verify : ℕ → List ℕ → Bool) (p : Params)
    (two : 1 ≤ p.f + p.c) where
  -- What the loops leave.
  abbrev Filled : ℕ → ℕ → ℕ → List Iterator → List Restriction → List Restriction → ℕ → Type 0
  Filled curr upper last iters array array' last' =
      Follows combine verify p upper curr array' iters
      × (length array' ≡ length array)
      × (last ≤ last')
      × (last' ≤ upper)
      × Within p.null_digest curr last' array'

  pick_le : (b : Bool) (x y z : ℕ) → x ≤ z → y ≤ z → (if b then x else y) ≤ z
  pick_le true x y z h k = h
  pick_le false x y z h k = k

  le_pick : (b : Bool) (x y z : ℕ) → y ≤ x → (if b then x else y) ≤ z → y ≤ z
  le_pick true x y z h k = omega arith
  le_pick false x y z h k = k

  head_within :
      (sel : Bool × ℕ) (curr last last' : ℕ)
      → (if sel.0 && not (sel.1 == p.null_digest) then curr else last) ≤ last'
      → not (sel.0 && not (sel.1 == p.null_digest)) ≡ false
      → (curr ≤ last') × (sel.1 ≢ p.null_digest)
  head_within sel curr last last' grows e = ground arith

  restrict_window-Filled :
      (n curr upper last : ℕ) (iters : List Iterator) (array : List Restriction)
      → AllLive curr iters
      → last ≤ upper
      → last ≤ curr
      → length array ≡ n
      → curr + n ≤ upper + 1
      → (array' : List Restriction) × (last' : ℕ) × (restrict_window combine verify p n curr upper
            iters last array
          ≡ some (array', last'))
        × Filled curr upper last iters array array' last'
  unfolding restrict_window
  restrict_window-Filled zero curr upper last iters [] live low past size fits =
      ([], last, refl, (tt, refl, omega arith, low, tt))
  restrict_window-Filled zero curr upper last iters (r ∷ rest) live low past size fits =
      absurd (omega arith)
  restrict_window-Filled (suc n) curr upper last iters [] live low past size fits =
      absurd (omega arith)
  restrict_window-Filled (suc n) curr upper last [] (r ∷ rest) live low past size fits =
      let (array', last', runs, (follows, len, grows, under, within)) =
        restrict_window-Filled n (curr + 1) upper last [] rest tt low (omega arith) (omega arith)
          (omega arith) in
      (
        set_null r ∷ array',
        last',
        rw (runs, restrict_window) refl,
        ((refl, follows), omega (arith, len), grows, under, ((λ e. absurd (cc e)), within)),
      )
  restrict_window-Filled (suc n) curr upper last (i ∷ iters) (r ∷ rest) live low past size fits =
      let (slow, fast, iters', picks, justified, live') =
        compute_restrictions_for_seq_num-IsJustified combine verify p curr upper (i ∷ iters) two
          (omega arith) (omega arith) live in
      let sel : Bool × ℕ = selected fast slow in
      let restricted : Bool = sel.0 && not (sel.1 == p.null_digest) in
      let last1 : ℕ = if restricted then curr else last in
      let (array', last', runs, (follows, len, grows, under, within)) =
        restrict_window-Filled n (curr + 1) upper last1 iters' rest live'
          (pick_le restricted curr last upper (omega arith) low)
          (pick_le restricted curr last (curr + 1) (omega arith) (omega arith)) (omega arith)
          (omega arith) in
      (
        record { is_null = not restricted; digest = sel.1 } ∷ array',
        last',
        rw (picks, restrict_window) (rw (runs, restrict_window) refl),
        (
          (slow, fast, iters', picks, justified, refl, refl, follows),
          omega (arith, len),
          le_pick restricted curr last last' past grows,
          under,
          (head_within sel curr last last' grows, within),
        ),
      )

  abbrev range_end : ℕ → ℕ → ℕ
  range_end lb last =
      if ltb 0 last && leb last (lb + work_window_size - checkpoint_window_size)
      then lb + work_window_size - checkpoint_window_size
      else lb + work_window_size

  range_end_cases :
      (lb last : ℕ)
      → (range_end lb last ≡ lb + work_window_size)
        ⊎ (range_end lb last ≡ lb + work_window_size - checkpoint_window_size)
  range_end_cases lb last = ground arith

  -- The shorter range still covers the last restriction.
  range_end_reaches : (lb last : ℕ) → last ≤ lb + work_window_size → last ≤ range_end lb last
  range_end_reaches lb last h = ground arith

  restrict_empty :
      (n curr upper last : ℕ) (array : List Restriction)
      → length array ≡ n
      → restrict_window combine verify p n curr upper [] last array
        ≡ some (map set_null array, last)
  unfolding restrict_window
  restrict_empty zero curr upper last [] size = refl
  restrict_empty zero curr upper last (r ∷ rest) size = absurd (omega arith)
  restrict_empty (suc n) curr upper last [] size = absurd (omega arith)
  restrict_empty (suc n) curr upper last (r ∷ rest) size =
      rw (restrict_empty n (curr + 1) upper last rest (omega arith), restrict_window) refl

  last_of_empty :
      (n curr upper : ℕ) (iters : List Iterator) (array : List Restriction)
      → length array ≡ n
      → is_empty iters ≡ true
      → (array' : List Restriction) (last' : ℕ)
      → restrict_window combine verify p n curr upper iters 0 array ≡ some (array', last')
      → last' ≡ 0
  last_of_empty n curr upper [] array size e array' last' runs =
      ground (arith, restrict_empty n curr upper 0 array size)
  last_of_empty n curr upper (i ∷ iters) array size e array' last' runs = absurd (cc e)

  -- For legal messages, an array with an entry for each number of the window, and an f + c that is
  -- not 0, the computation meets no failed assertion and writes within the array, which keeps its
  -- length. Each entry is the choice for its number: null exactly where there is none or where it is
  -- the digest of a null request. The range that is reported is empty or starts at the first number
  -- of the window and ends at its end or its middle; and no restriction lies beyond the range, nor is
  -- any to the digest of a null request.
  pub compute_restrictions-Within :
      (lb b : ℕ) (msgs : List (Option ViewChangeMsg)) (array : List Restriction)
      → AllRising b msgs
      → length array ≡ work_window_size
      → (lo hi : ℕ) × (array' : List Restriction) × (compute_restrictions combine verify p msgs lb
            array
          ≡ some (lo, hi, array'))
        × (length array' ≡ length array)
        × Follows combine verify p
            (lb + work_window_size)
            (lb + 1)
            array'
            (make_iterators (lb + 1) msgs)
        × IsRange lb lo hi
        × Within p.null_digest (lb + 1) hi array'
  unfolding compute_restrictions
  compute_restrictions-Within lb b msgs array rising size =
      let iters : List Iterator = make_iterators (lb + 1) msgs in
      let (array', last', runs, (follows, len, _, under, within)) =
        restrict_window-Filled work_window_size (lb + 1) (lb + work_window_size) 0 iters array
          (make_iterators-AllLive (lb + 1) b msgs rising) (omega arith) (omega arith) size
          (omega arith) in
      elim (Bool-cases (is_empty iters)) [
        | inl none_left ↦
            let last_zero : last' ≡ 0 =
              last_of_empty work_window_size (lb + 1) (lb + work_window_size) iters array size
                none_left array' last' runs in
            (
              0,
              0,
              array',
              rw (runs, none_left) refl,
              len,
              follows,
              inl (refl, refl),
              (rw last_zero at within),
            )
        | inr some_left ↦ (
          lb + 1,
          range_end lb last',
          array',
          rw (runs, some_left) refl,
          len,
          follows,
          inr (refl, range_end_cases lb last'),
          Within-mono p.null_digest (lb + 1) last' (range_end lb last') array'
              (range_end_reaches lb last' under) within,
        )
      ]
