-- ===== src/Collector/Shares.antt =====
-- The shares that a job is made of, and those it reports as bad.
use concord_rcanopus.Base.{
  ℕ, suc, ◌+◌, ◌%◌, ◌^◌, ◌≤◌, ◌<◌, ◌≡◌, inl, inr, refl, sym, ap, ◌∙◌, Bool, true, false, not, ◌&&◌,
  ◌||◌, Option, some, List, [], ◌∷◌, arith, ltb, lt→ltb, ◌==◌, ==→eq, eq→==, ne→==, if◌then◌else◌,
  length, Bool-cases, Option-cases, and_true, or_false, refuted, if_true, if_false, ==→ne, ◌>>=◌,
  ◌>>◌, assert,
}
use concord_rcanopus.Collector.{RepInfo, Infos, External, is_invalid, is_none, insert_id, gather}
use concord_rcanopus.Collector.Completion.{bad_shares}
use concord_rcanopus.Collector.Entries.{
  count, count_zero, is_member, no_repeats, is_usable, is_absent,
}

-- Every id of the list passes the test.
abbrev pub all_pass : (ℕ → Bool) → List ℕ → Bool
all_pass p [] = true
all_pass p (r ∷ rest) = p r && all_pass p rest

abbrev pub ids_of : {Share : Type 0} → List (ℕ × Share) → List ℕ
ids_of [] = []
ids_of ((r, share) ∷ rest) = r ∷ ids_of rest

pub both_true : {a b : Bool} → a ≡ true → b ≡ true → a && b ≡ true
both_true {a} {b} ha hb = ap (λ x. x && b) ha ∙ hb

or_none : {a b : Bool} → a ≡ false → b ≡ false → a || b ≡ false
or_none {a} {b} ha hb = ap (λ x. x || b) ha ∙ hb

-- An entry that is usable and fails the test.
abbrev pub is_unfit : {Part : Type 0} → (ℕ → Bool) → ℕ × RepInfo Part → Bool
is_unfit p (r, info) = not (is_invalid info.state) && not (p r)

fit : (usable passes : Bool) → usable ≡ true → usable && not passes ≡ false → passes ≡ true
fit true true hu h = refl
fit true false hu h = absurd (cc h)
fit false passes hu h = absurd (cc hu)

-- Weaker tests pass where stronger ones do.
pub pass_weaker :
    (p q : ℕ → Bool) (ids : List ℕ)
    → ((r : ℕ) → p r ≡ true → q r ≡ true)
    → all_pass p ids ≡ true
    → all_pass q ids ≡ true
pass_weaker p q [] weaker h = refl
pass_weaker p q (r ∷ ids) weaker h =
    let (here, later) = and_true (p r) (all_pass p ids) h in
    both_true (weaker r here) (pass_weaker p q ids weaker later)

insert_passes :
    (p : ℕ → Bool) (r : ℕ) (ids : List ℕ)
    → p r ≡ true
    → all_pass p ids ≡ true
    → all_pass p (insert_id r ids) ≡ true
unfolding insert_id
insert_passes p r [] hr h = both_true hr refl
insert_passes p r (x ∷ ids) hr h =
    let (here, later) = and_true (p x) (all_pass p ids) h in
    elim (Bool-cases (r == x)) [
      | inl e ↦ ap (all_pass p) (if_true (r == x) _ _ e) ∙ h
      | inr e ↦
          ap (all_pass p) (if_false (r == x) _ _ e)
          ∙ both_true here (insert_passes p r ids hr later)
    ]

insert_member :
    (r j : ℕ) (ids : List ℕ)
    → (j == r) ≡ false
    → is_member j ids ≡ false
    → is_member j (insert_id r ids) ≡ false
unfolding insert_id
insert_member r j [] other h = or_none other refl
insert_member r j (x ∷ ids) other h =
    let (here, later) = or_false (j == x) (is_member j ids) h in
    elim (Bool-cases (r == x)) [
      | inl e ↦ ap (is_member j) (if_true (r == x) _ _ e) ∙ h
      | inr e ↦
          ap (is_member j) (if_false (r == x) _ _ e)
          ∙ or_none here (insert_member r j ids other later)
    ]

insert_no_repeats :
    (r : ℕ) (ids : List ℕ) → no_repeats ids ≡ true → no_repeats (insert_id r ids) ≡ true
unfolding insert_id
insert_no_repeats r [] h = refl
insert_no_repeats r (x ∷ ids) h =
    let (fresh, later) = and_true (not (is_member x ids)) (no_repeats ids) h in
    elim (Bool-cases (r == x)) [
      | inl e ↦ ap no_repeats (if_true (r == x) _ _ e) ∙ h
      | inr e ↦
          ap no_repeats (if_false (r == x) _ _ e)
          ∙ both_true
              (ap not (
                insert_member r x ids (ne→== x r (λ same. absurd (cc (e, eq→== r x (sym same)))))
                  (refuted (is_member x ids) fresh)))
              (insert_no_repeats r ids later)
    ]

module _ {Part Full Share Sig Acc : Type 0} (e : External Part Full Share Sig Acc) where
  taken_step :
      (o : Option Part) (room last : Bool) (next : Option (List (ℕ × Share))) (r : ℕ) (msg : Part)
      (items : List (ℕ × Share))
      → o ≡ some msg
      → room ≡ true
      → (if last then some [] else next) ≡ some items
      → (do
        m ← o
        assert room
        later ← if last then some [] else next
        some ((r, e.share_of m) ∷ later))
        ≡ some ((r, e.share_of msg) ∷ items)
  taken_step o room last next r msg items eo er ei = rw (eo, er, ei) refl

  -- Where enough shares are usable the loop gathers the number required, from entries that pass a
  -- test that every usable entry passes.
  pub gather_lem :
      (p : ℕ → Bool) (required taken : ℕ) (infos : Infos Part)
      → count is_absent infos ≡ 0
      → count (is_unfit p) infos ≡ 0
      → taken < required
      → required ≤ taken + count is_usable infos
      → (items : List (ℕ × Share)) × (gather e required taken infos ≡ some items)
        × (length items + taken ≡ required)
        × (all_pass p (ids_of items) ≡ true)
  unfolding gather
  gather_lem p required taken [] present fits room enough = absurd (omega arith)
  gather_lem p required taken ((r, info) ∷ rest) present fits room enough =
      let (here, present') = count_zero is_absent (r, info) rest present in
      let (fits_here, fits') = count_zero (is_unfit p) (r, info) rest fits in
      elim (Bool-cases (is_invalid info.state)) [
        | inl bad ↦
            let fewer =
              if_false (is_usable (r, info)) (suc (count is_usable rest)) (count is_usable rest)
                (ap not bad) in
            let (items, ran, size, good) =
              gather_lem p required taken rest present' fits' room (omega (arith, fewer)) in
            (
              items,
              if_true (is_invalid info.state) _ _ bad
                  ∙ if_false (taken == required) _ _ (ne→== taken required (omega arith))
                  ∙ ran,
              size,
              good,
            )
        | inr usable ↦
            let one =
              if_true (is_usable (r, info)) (suc (count is_usable rest)) (count is_usable rest)
                (ap not usable) in
            let passes = fit (is_usable (r, info)) (p r) (ap not usable) fits_here in
            elim (Option-cases info.partial_sig_msg) [
              | inl absent ↦ absurd (cc (here, ap is_none absent))
              | inr (msg, found) ↦ elim (Bool-cases (taken + 1 == required)) [
                | inl last ↦ (
                  (r, e.share_of msg) ∷ [],
                  if_false (is_invalid info.state) _ _ usable
                      ∙ taken_step info.partial_sig_msg (ltb taken required) (taken + 1 == required)
                          _ r msg [] found (lt→ltb taken required room)
                          (if_true (taken + 1 == required) _ _ last),
                  omega (arith, ==→eq (taken + 1) required last),
                  both_true passes refl,
                )
                | inr more ↦
                    let (items, ran, size, good) =
                      gather_lem p required (taken + 1) rest present' fits'
                        (omega (arith, ==→ne (taken + 1) required more)) (omega (arith, one)) in
                    (
                      (r, e.share_of msg) ∷ items,
                      if_false (is_invalid info.state) _ _ usable
                          ∙ taken_step info.partial_sig_msg (ltb taken required)
                              (taken + 1 == required) _ r msg items found
                              (lt→ltb taken required room)
                              (if_false (taken + 1 == required) _ _ more ∙ ran),
                      omega (arith, size),
                      both_true passes good,
                    )
              ]
            ]
      ]

  -- The replicas reported as bad are of the job's and differ.
  pub bad_shares_lem :
      (p : ℕ → Bool) (acc : Acc) (valid : ℕ) (items : List (ℕ × Share))
      → all_pass p (ids_of items) ≡ true
      → (all_pass p (bad_shares e acc valid items) ≡ true)
        × (no_repeats (bad_shares e acc valid items) ≡ true)
  unfolding bad_shares
  bad_shares_lem p acc valid [] h = (refl, refl)
  bad_shares_lem p acc valid ((r, share) ∷ rest) h =
      let (here, later) = and_true (p r) (all_pass p (ids_of rest)) h in
      let (acc', total) = e.threshold_verifier.add_share share acc in
      let (pass, differ) = bad_shares_lem p acc' (total % 2 ^ 16) rest later in
      elim (Bool-cases (valid + 1 == total % 2 ^ 16)) [
        | inl good ↦ (
          ap (all_pass p) (if_true (valid + 1 == total % 2 ^ 16) _ _ good) ∙ pass,
          ap no_repeats (if_true (valid + 1 == total % 2 ^ 16) _ _ good) ∙ differ,
        )
        | inr bad ↦ (
          ap (all_pass p) (if_false (valid + 1 == total % 2 ^ 16) _ _ bad)
              ∙ insert_passes p r _ here pass,
          ap no_repeats (if_false (valid + 1 == total % 2 ^ 16) _ _ bad)
              ∙ insert_no_repeats r _ differ,
        )
      ]
