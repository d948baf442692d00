-- ===== src/ViewsManager/Numbers.antt =====
-- The views that enough replicas ask for, and the numbers whose messages are missing.
use concord_rcanopus.Base.{
  ℕ, zero, suc, ◌+◌, ◌-◌, ◌*◌, ◌&&◌, ◌≤◌, ◌<◌, ◌≡◌, ◌⊎◌, inl, inr, refl, sym, ap, ◌∙◌, Bool, true,
  false, not, Option, none, some, List, [], ◌∷◌, arith, ltb, leb, ltb→lt, lt→ltb, le→leb, ◌==◌,
  if◌then◌else◌, length, get_elem?, get_elem?_lt, drop, Bool-cases, if_true, ◌>>=◌, ◌>>◌, assert,
}
use concord_rcanopus.ViewChange.Restrictions.{Restriction, sort_desc}
use concord_rcanopus.ViewChange.Restrictions.Sorting.{
  count_by, length-sort_desc, sort_desc-IsDescending, count_by-sort_desc, IsDescending-get,
  IsDescending-first,
}
use concord_rcanopus.ViewsManager.{
  Digests, SignedViewChange, PrePrepareMsg, ViewsManager, is_with_restrictions, quorum,
  relevant_views, view_numbers, get_my_latest_view_change_msg,
  compute_correct_relevant_view_numbers,
}
use concord_rcanopus.ViewsManager.Missing.{
  is_missing, missing_in, missing_numbers_in, first_relevant, has_missing_msgs,
  get_numbers_of_missing_pp,
}

-- The view is the largest one that enough of the messages ask for or pass.
abbrev pub IsSupported : ℕ → List ℕ → ℕ → Type 0
IsSupported enough views v = (enough ≤ count_by (leb v) views) × (count_by (ltb v) views < enough)

at_index :
    (enough : ℕ) (views : List ℕ)
    → 0 < enough
    → enough ≤ length views
    → (v : ℕ) × (get_elem? (sort_desc views) (enough - 1) ≡ some v) × IsSupported enough views v
at_index enough views positive fits =
    let sorted = sort_desc views in
    let (v, found) = get_elem?_lt sorted (enough - 1) (omega (arith, length-sort_desc views)) in
    let (reach, exceed) =
      IsDescending-get (enough - 1) v sorted (sort_desc-IsDescending views) found in
    (
      v,
      found,
      (
        omega (arith, reach, count_by-sort_desc (leb v) views),
        omega (arith, exceed, count_by-sort_desc (ltb v) views),
      ),
    )

view_numbers-IsSupported :
    (latest correct smajor : ℕ) (views : List ℕ)
    → 0 < correct
    → correct ≤ smajor
    → (known agreed : ℕ) × (view_numbers latest correct smajor views ≡ some (known, agreed))
      × (((length views < correct) × (known ≡ latest)) ⊎ IsSupported correct views known)
      × (((length views < smajor) × (agreed ≡ latest)) ⊎ IsSupported smajor views agreed)
unfolding view_numbers
view_numbers-IsSupported latest correct smajor views positive below =
    elim (Bool-cases (ltb (length views) correct)) [
      | inl few ↦
          let fewer = ltb→lt (length views) correct few in
          (
            latest,
            latest,
            if_true (ltb (length views) correct) _ _ few,
            inl (fewer, refl),
            inl (omega (arith, fewer), refl),
          )
      | inr many ↦
          let enough : correct ≤ length views = at_least correct (length views) many in
          let (known, e1, supported) = at_index correct views positive enough in
          let (highest, e2) =
            get_elem?_lt (sort_desc views) 0 (omega (arith, length-sort_desc views)) in
          let (lowest, e3) =
            get_elem?_lt (sort_desc views) (length views - 1)
              (omega (arith, length-sort_desc views)) in
          let ordered = le→leb lowest highest (
            IsDescending-first (length views - 1) highest lowest (sort_desc views)
              (sort_desc-IsDescending views) e2 e3) in
          elim (Bool-cases (ltb (length views) smajor)) [
            | inl few ↦ (
              known,
              latest,
              rw (many, e2, e3, ordered, e1, few) refl,
              inr supported,
              inl (ltb→lt (length views) smajor few, refl),
            )
            | inr all ↦
                let (agreed, e4, supported') =
                  at_index smajor views (omega (arith, positive, below))
                    (at_least smajor (length views) all) in
                (
                  known,
                  agreed,
                  rw (many, e2, e3, ordered, e1, all, e4) refl,
                  inr supported,
                  inr supported',
                )
          ]
    ]
  where
    at_least : (a n : ℕ) → ltb n a ≡ false → a ≤ n
    at_least a n h = ground arith

-- The messages that ask for a view above the latest pending one that passes the test, from the index
-- `i` on; the replica's own latest message stands for that of its index.
abbrev pub asks : (ℕ → Bool) → ℕ → Option SignedViewChange → ℕ
asks test latest none = 0
asks test latest (some vc) =
    if ltb latest vc.message.new_view && test vc.message.new_view then 1 else 0

abbrev pub asking :
    (ℕ → Bool) → ℕ → ℕ → Option SignedViewChange → ℕ → List (Option SignedViewChange) → ℕ
asking test latest my_id mine i [] = 0
asking test latest my_id mine i (vc ∷ rest) =
    asks test latest (if i == my_id then mine else vc) + asking test latest my_id mine (i + 1) rest

abbrev pub asking_all : ViewsManager → Option SignedViewChange → (ℕ → Bool) → ℕ
asking_all k mine test =
    asking test k.my_latest_pending_view k.replicas_info.my_id mine 0 k.view_change_messages

count_asked :
    (test : ℕ → Bool) (latest : ℕ) (o : Option SignedViewChange) (later : List ℕ)
    → count_by test (elim o [
      | none ↦ later
      | some m ↦ if ltb latest m.message.new_view then m.message.new_view ∷ later else later
    ])
      ≡ asks test latest o + count_by test later
count_asked test latest none later = omega arith
count_asked test latest (some m) later = elim (Bool-cases (ltb latest m.message.new_view)) [
  | inr old ↦ rw old (omega arith)
  | inl newer ↦ elim (Bool-cases (test m.message.new_view)) [
    | inl passes ↦ rw (newer, passes) (omega arith)
    | inr fails ↦ rw (newer, fails) (omega arith)
  ]
]

count_by-relevant_views :
    (test : ℕ → Bool) (latest my_id : ℕ) (mine : Option SignedViewChange) (i : ℕ)
    (msgs : List (Option SignedViewChange))
    → count_by test (relevant_views latest my_id mine i msgs) ≡ asking test latest my_id mine i msgs
unfolding relevant_views
count_by-relevant_views test latest my_id mine i [] = refl
count_by-relevant_views test latest my_id mine i (vc ∷ rest) =
    count_asked test latest (if i == my_id then mine else vc) _
    ∙ ap (λ n. asks test latest (if i == my_id then mine else vc) + n)
        (count_by-relevant_views test latest my_id mine (i + 1) rest)

count_every : (xs : List ℕ) → count_by (λ x. true) xs ≡ length xs
count_every [] = refl
count_every (x ∷ xs) = omega (arith, count_every xs)

-- The messages that ask for views above the latest pending one, or that there are too few of them.
abbrev pub IsAgreed : ViewsManager → Option SignedViewChange → ℕ → ℕ → Type 0
IsAgreed k mine enough v =
    ((asking_all k mine (λ x. true) < enough) × (v ≡ k.my_latest_pending_view))
    ⊎ ((enough ≤ asking_all k mine (leb v)) × (asking_all k mine (ltb v) < enough))

agrees :
    (k : ViewsManager) (mine : Option SignedViewChange) (enough v : ℕ) (views : List ℕ)
    → ((test : ℕ → Bool) → count_by test views ≡ asking_all k mine test)
    → ((length views < enough) × (v ≡ k.my_latest_pending_view)) ⊎ IsSupported enough views v
    → IsAgreed k mine enough v
agrees k mine enough v views same (inl (few, latest)) =
    inl (omega (arith, count_every views, same (λ x. true)), latest)
agrees k mine enough v views same (inr (reach, exceed)) =
    inr (omega (arith, same (leb v), reach), omega (arith, same (ltb v), exceed))

-- Of the messages that ask for a view above the latest pending one, where the replica's own latest
-- message stands for its entry: the correct view is the largest one that F + 1 of them ask for or
-- pass, and the agreed view the largest one for 2F + 2C + 1 of them; where fewer ask, it is the
-- latest pending view. No Assert fails, when the replica has its own latest message or no view has
-- been pending yet, as getMyLatestViewChangeMsg asserts.
pub compute_correct_relevant_view_numbers-IsAgreed :
    (d : Digests) (k : ViewsManager) (mine : Option SignedViewChange)
    → get_my_latest_view_change_msg d k ≡ some mine
    → (known agreed : ℕ) × (compute_correct_relevant_view_numbers d k ≡ some (known, agreed))
      × IsAgreed k mine (k.replicas_info.f_val + 1) known
      × IsAgreed k mine (2 * k.replicas_info.f_val + 2 * k.replicas_info.c_val + 1) agreed
unfolding compute_correct_relevant_view_numbers
compute_correct_relevant_view_numbers-IsAgreed d k mine found =
    let latest = k.my_latest_pending_view in
    let my_id = k.replicas_info.my_id in
    let views = relevant_views latest my_id mine 0 k.view_change_messages in
    let same = λ (test : ℕ → Bool).
      count_by-relevant_views test latest my_id mine 0 k.view_change_messages in
    let (known, agreed, ran, first, second) =
      view_numbers-IsSupported latest (k.replicas_info.f_val + 1) (quorum k.replicas_info) views
        (omega arith) (omega arith) in
    (
      known,
      agreed,
      rw found ran,
      agrees k mine (k.replicas_info.f_val + 1) known views same first,
      agrees k mine (quorum k.replicas_info) agreed views same second,
    )

found_one :
    (b : Bool) (i : ℕ) (o : Option (List ℕ)) (missing : Option Bool) (numbers : List ℕ)
    → ((later : List ℕ) → o ≡ some later → missing ≡ some (ltb 0 (length later)))
    → (do later ← o; some (if b then i ∷ later else later)) ≡ some numbers
    → (if b then some true else missing) ≡ some (ltb 0 (length numbers))
found_one b i none missing numbers h e = absurd (cc e)
found_one true i (some later) missing numbers h e =
    ap some (sym (lt→ltb 0 (suc (length later)) (omega arith)))
    ∙ ap (λ xs. some (ltb 0 (length xs))) {x = i ∷ later} (cc e)
found_one false i (some later) missing numbers h e =
    h later refl ∙ ap (λ xs. some (ltb 0 (length xs))) {x = later} (cc e)

missing_in-numbers :
    (i n : ℕ) (rs : List Restriction) (pps : List (Option PrePrepareMsg)) (numbers : List ℕ)
    → missing_numbers_in i n rs pps ≡ some numbers
    → missing_in n rs pps ≡ some (ltb 0 (length numbers))
unfolding missing_in missing_numbers_in
missing_in-numbers i zero rs pps numbers e = ap (λ xs. some (ltb 0 (length xs))) {x = []} (cc e)
missing_in-numbers i (suc n) [] pps numbers e = absurd (cc e)
missing_in-numbers i (suc n) (r ∷ rs) [] numbers e = absurd (cc e)
missing_in-numbers i (suc n) (r ∷ rs) (pp ∷ pps) numbers e =
    found_one (is_missing r pp) i (missing_numbers_in (i + 1) n rs pps) (missing_in n rs pps)
      numbers (missing_in-numbers (i + 1) n rs pps) e

abbrev no_numbers : Option (Bool × List ℕ)
no_numbers = some (false, [])

abbrev answer : List ℕ → Bool × List ℕ
answer numbers = (ltb 0 (length numbers), numbers)

answers_agree :
    (waits unrestricted : Bool) (o : Option (List ℕ)) (missing : Option Bool) (result : Bool)
    (numbers : List ℕ)
    → ((found : List ℕ) → o ≡ some found → missing ≡ some (ltb 0 (length found)))
    → waits ≡ true
    → (if not waits
        then no_numbers
        else if unrestricted
        then no_numbers
        else (do found ← o; some (answer found)))
      ≡ some (result, numbers)
    → ((do assert waits; (if unrestricted then some false else missing)) ≡ some result)
      × (result ≡ ltb 0 (length numbers))
answers_agree false unrestricted o missing result numbers h waits e = absurd (cc waits)
answers_agree true true o missing result numbers h waits e =
    let same : answer [] ≡ (result, numbers) = cc e in
    (
      ap (λ (z : Bool × List ℕ). some z.0) same,
      sym (ap (λ (z : Bool × List ℕ). z.0) same)
          ∙ ap (λ (z : Bool × List ℕ). ltb 0 (length z.1)) same,
    )
answers_agree true false none missing result numbers h waits e = absurd (cc e)
answers_agree true false (some found) missing result numbers h waits e =
    let same : answer found ≡ (result, numbers) = cc e in
    (
      h found refl ∙ ap (λ (z : Bool × List ℕ). some z.0) same,
      sym (ap (λ (z : Bool × List ℕ). z.0) same)
          ∙ ap (λ (z : Bool × List ℕ). ltb 0 (length z.1)) same,
    )

-- While the manager waits for messages the two answers agree: the list of missing numbers is empty
-- exactly when no message is missing, and the list's own result says so too.
pub get_numbers_of_missing_pp-has_missing_msgs :
    (stable : ℕ) (k : ViewsManager) (result : Bool) (numbers : List ℕ)
    → is_with_restrictions k.stat ≡ true
    → get_numbers_of_missing_pp stable k ≡ some (result, numbers)
    → (has_missing_msgs stable k ≡ some result) × (result ≡ ltb 0 (length numbers))
unfolding get_numbers_of_missing_pp has_missing_msgs
get_numbers_of_missing_pp-has_missing_msgs stable k result numbers waits e =
    answers_agree (is_with_restrictions k.stat) (k.min_restriction == 0) _ _ result numbers
      (λ found.
        missing_in-numbers (first_relevant k stable)
          (k.max_restriction + 1 - first_relevant k stable)
          (drop (first_relevant k stable - k.min_restriction) k.restrictions)
          (drop (first_relevant k stable - k.min_restriction) k.pre_prepare_msgs_of_restrictions)
          found)
      waits e
