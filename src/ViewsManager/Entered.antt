-- ===== src/ViewsManager/Entered.antt =====
-- Entering a view keeps the invariant, and what a view that is entered has.
use concord_rcanopus.Base.{
  ℕ, ◌+◌, ◌-◌, ◌≤◌, ◌≡◌, ◌⊎◌, inl, inr, refl, sym, ap, ◌∙◌, Bool, true, false, not, ◌&&◌, ◌||◌,
  Option, none, some, List, [], ◌∷◌, ◌++◌, arith, ltb, leb, ◌==◌, ==→eq, length, take, drop,
  Bool-cases, if_false, bind_inv, assert_inv, some_inj, then_inv, else_inv,
}
use mathlib.Core.Path.{subst}
use concord_rcanopus.ViewChange.Restrictions.{Restriction}
use concord_rcanopus.ViewsManager.{
  PrePrepareMsg, in_view, ViewsManager, Digests, is_in_view, is_pending, is_with_restrictions,
}
use concord_rcanopus.ViewsManager.Pending.{max, min}
use concord_rcanopus.ViewsManager.Entering.{
  release_range, enter_range, is_waiting, compute_restrictions_of_new_view, try_new_pending_view,
  enter_view, finish_entering, restrict_and_enter, try_to_enter_view,
}
use concord_rcanopus.ViewsManager.Quorum.{all_none, IsQuorum}
use concord_rcanopus.ViewsManager.Arrays.{Fits, none-Fits}
use concord_rcanopus.ViewsManager.Handing.{release_range-Fits, AllObey, enter_range-Entered}
use concord_rcanopus.ViewsManager.Moving.{span, IsValid}
use concord_rcanopus.ViewsManager.Invariant.{
  with_messages-IsValid, try_new_pending_view-IsValid, compute_restrictions_of_new_view-IsValid,
}

module _ (d : Digests) where
  shift :
      (i j m n : ℕ) (rs : List Restriction) (pps : List (Option PrePrepareMsg))
      → ((i ≡ j) ⊎ (m ≡ 0))
      → m ≡ n
      → Fits i m rs pps
      → Fits j n rs pps
  shift i j m n rs pps (inl same) size h =
      subst (λ x. Fits j x rs pps) size (subst (λ x. Fits x m rs pps) same h)
  shift i j m n rs pps (inr nothing) size h =
      subst (λ x. Fits j x rs pps) size
        (subst (λ x. Fits j x rs pps) (sym nothing) (subst (λ x. Fits i x rs pps) nothing h))

  -- The first number that enters, against the restricted ones.
  first_bounds :
      (lo hi stable : ℕ)
      → let first = min (hi + 1) (max lo (stable + 1)) in
        (first - lo ≤ hi + 1 - lo)
        × (hi + 1 - lo - (first - lo) ≡ hi + 1 - first)
        × ((lo + (first - lo) ≡ first) ⊎ (hi + 1 - lo - (first - lo) ≡ 0))
  first_bounds lo hi stable = (
    ground arith,
    ground arith,
    elim (Bool-cases (leb lo (hi + 1))) [
      | inl below ↦ inl (ground arith)
      | inr above ↦ inr (ground arith)
    ],
  )

  append_none :
      (xs ys : List (Option PrePrepareMsg))
      → all_none xs ≡ true
      → all_none ys ≡ true
      → all_none (xs ++ ys) ≡ true
  append_none [] ys hx hy = hy
  append_none (none ∷ xs) ys hx hy = append_none xs ys hx hy
  append_none (some x ∷ xs) ys hx hy = absurd (cc hx)

  -- A view that is entered has the quorum that made it pending. Its messages are those of the
  -- restricted numbers above the stable one, each once and in order, as the restrictions say.
  abbrev pub IsEntered : ℕ → ℕ → List PrePrepareMsg → ViewsManager → Type 0
  IsEntered v stable out k =
      let first = min (k.max_restriction + 1) (max k.min_restriction (stable + 1)) in
      (is_in_view k.stat ≡ true)
      × (k.my_latest_active_view ≡ v)
      × IsQuorum v k
      × (((k.min_restriction ≡ 0) × (out ≡ []))
          ⊎ (AllObey d v first (drop (first - k.min_restriction) k.restrictions) out
              × (length out ≡ k.max_restriction + 1 - first)))

  enter_view-IsEntered :
      (v stable : ℕ) (k : ViewsManager) (entered : List PrePrepareMsg × ViewsManager)
      → IsValid k
      → IsQuorum v k
      → (k.min_restriction == 0) ≡ false
      → enter_view d v stable k ≡ some entered
      → IsValid entered.1 × IsEntered v stable entered.0 entered.1
  unfolding enter_view
  enter_view-IsEntered v stable k entered valid quorum restricted e =
      let lo = k.min_restriction in
      let first = min (k.max_restriction + 1) (max lo (stable + 1)) in
      let (a_le, size, start) = first_bounds lo k.max_restriction stable in
      let (released, ran, e1) =
        bind_inv (release_range lo (first - lo) k.restrictions k.pre_prepare_msgs_of_restrictions) _
          _ e in
      let (handed, ran', e2) =
        bind_inv
          (enter_range d v first (k.max_restriction + 1 - first) (drop (first - lo) k.restrictions)
            (drop (first - lo) released))
          _ _ e1 in
      let (fits, freed) =
        release_range-Fits lo (first - lo) (k.max_restriction + 1 - lo) k.restrictions
          k.pre_prepare_msgs_of_restrictions released a_le
          (subst (λ n. Fits lo n k.restrictions k.pre_prepare_msgs_of_restrictions)
            (if_false (lo == 0) _ _ restricted) valid.fits)
          ran in
      let (obey, count, clear) =
        enter_range-Entered d v first (k.max_restriction + 1 - first)
          (drop (first - lo) k.restrictions) (drop (first - lo) released) handed
          (shift (lo + (first - lo)) first (k.max_restriction + 1 - lo - (first - lo))
            (k.max_restriction + 1 - first) (drop (first - lo) k.restrictions)
            (drop (first - lo) released) start size fits)
          ran' in
      let k1 = record k {
        my_latest_active_view = v;
        stat = in_view;
        pre_prepare_msgs_of_restrictions = take (first - lo) released ++ handed.1;
        collection_of_pre_prepare_msgs = [];
      } in
      subst (λ (z : List PrePrepareMsg × ViewsManager). IsValid z.1 × IsEntered v stable z.0 z.1)
        {x = (handed.0, k1)} (some_inj e2)
        (
          record {
            cleared = valid.cleared;
            held = λ h. absurd (cc h);
            fits =
                none-Fits lo (span k1) k.restrictions (take (first - lo) released ++ handed.1)
                  (append_none (take (first - lo) released) handed.1 freed clear);
            settled = valid.settled;
            waiting = λ h. absurd (cc h);
            keyed = tt;
          },
          (refl, refl, quorum, inr (obey, count)),
        )

  -- A result: the invariant, and what an entered view has.
  abbrev pub Enters : ℕ → ℕ → Bool × List PrePrepareMsg × ViewsManager → Type 0
  Enters v stable z = IsValid z.2 × (z.0 ≡ true → IsEntered v stable z.1 z.2)

  abbrev waits_still : ViewsManager → Bool × List PrePrepareMsg × ViewsManager
  waits_still k = (false, [], k)

  finish_entering-Enters :
      (v stable : ℕ) (k : ViewsManager) (z : Bool × List PrePrepareMsg × ViewsManager)
      → IsValid k
      → k.my_latest_pending_view ≡ v
      → finish_entering d v stable k ≡ some z
      → Enters v stable z
  unfolding finish_entering
  finish_entering-Enters v stable k z valid same e =
      let (missing, answer, e1) = bind_inv (is_waiting stable k) _ _ e in
      elim (Bool-cases missing) [
        | inl waits ↦
            subst (Enters v stable) (some_inj (then_inv missing _ _ waits e1))
              (valid, (λ h. absurd (cc h)))
        | inr complete ↦
            let e2 = else_inv missing _ _ complete e1 in
            let held = quorum_held complete answer in
            elim (Bool-cases (k.min_restriction == 0)) [
              | inl unset ↦
                  subst (Enters v stable)
                    (some_inj (then_inv (k.min_restriction == 0) _ _ unset e2))
                    (
                      record {
                        cleared = valid.cleared;
                        held = λ h. absurd (cc h);
                        fits = valid.fits;
                        settled = valid.settled;
                        waiting = λ h. absurd (cc h);
                        keyed = tt;
                      },
                      (λ h. (refl, refl, held, inl (==→eq k.min_restriction 0 unset, refl))),
                    )
              | inr restricted ↦
                  let (entered, ran, e3) =
                    bind_inv (enter_view d v stable k) _ _
                      (else_inv (k.min_restriction == 0) _ _ restricted e2) in
                  let (valid', is_entered) =
                    enter_view-IsEntered v stable k entered valid held restricted ran in
                  subst (Enters v stable) (some_inj e3) (valid', (λ h. is_entered))
            ]
      ]
    where
      or_true : (b : Bool) → b || true ≡ true
      or_true true = refl
      or_true false = refl

      quorum_held : {m : Bool} → m ≡ false → is_waiting stable k ≡ some m → IsQuorum v k
      quorum_held complete answer = elim (Bool-cases (is_with_restrictions k.stat)) [
        | inl with_them ↦
            subst (λ w. IsQuorum w k) same
              (valid.held
                (ap (λ b. is_pending k.stat || b) with_them ∙ or_true (is_pending k.stat)))
        | inr without ↦ absurd (
            cc (
              some_inj (then_inv (not (is_with_restrictions k.stat)) _ _ (ap not without) answer),
              complete,
            ))
      ]

  restrict_and_enter-Enters :
      (v stable : ℕ) (k : ViewsManager) (z : Bool × List PrePrepareMsg × ViewsManager)
      → IsValid k
      → restrict_and_enter d v stable k ≡ some z
      → Enters v stable z
  unfolding restrict_and_enter
  restrict_and_enter-Enters v stable k z valid e =
      let (same, e1) = assert_inv (v == k.my_latest_pending_view) _ _ e in
      elim (Bool-cases (is_pending k.stat)) [
        | inl waits ↦
            let (k', ran, e2) =
              bind_inv (compute_restrictions_of_new_view d v k) _ _
                (then_inv (is_pending k.stat) _ _ waits e1) in
            let (valid', at) = compute_restrictions_of_new_view-IsValid d v k k' valid ran in
            finish_entering-Enters v stable _ z valid' at e2
        | inr other ↦
            finish_entering-Enters v stable k z valid (sym (==→eq v k.my_latest_pending_view same))
              (else_inv (is_pending k.stat) _ _ other e1)
      ]

  -- Trying to enter a view keeps the invariant. When the view is entered, it is in the replica's
  -- hands with 2F + 2C + 1 view change messages for it and a new view message for it, and the
  -- pre-prepare messages handed over are those of the restricted numbers above the stable one, each
  -- number once and in order: a null request of the view where the number has no restriction, and
  -- elsewhere a message whose digest is that of the restriction.
  pub try_to_enter_view-Enters :
      (v stable executed : ℕ) (k : ViewsManager) (z : Bool × List PrePrepareMsg × ViewsManager)
      → IsValid k
      → try_to_enter_view d v stable executed k ≡ some z
      → IsValid z.2 × (z.0 ≡ true → IsEntered v stable z.1 z.2)
  unfolding try_to_enter_view
  try_to_enter_view-Enters v stable executed k z valid e =
      let (out, e1) = assert_inv (not (is_in_view k.stat)) _ _ e in
      let (newer, e2) = assert_inv (ltb k.my_latest_active_view v) _ _ e1 in
      let (at_least, e3) = assert_inv (leb k.my_latest_pending_view v) _ _ e2 in
      let (known, e4) =
        assert_inv (leb k.debug_highest_view v && leb k.debug_highest_known_stable stable) _ _ e3 in
      let k1 = record k { debug_highest_view = v; debug_highest_known_stable = stable } in
      let valid1 =
        with_messages-IsValid k k.view_change_messages k.new_view_messages stable v valid in
      let behind = ltb executed stable || ltb stable k.lower_bound_stable in
      elim (Bool-cases behind) [
        | inl waits ↦
            subst (Enters v stable) (some_inj (then_inv behind _ _ waits e4))
              (valid1, (λ h. absurd (cc h)))
        | inr ready ↦
            let e5 = else_inv behind _ _ ready e4 in
            elim (Bool-cases (ltb k.my_latest_pending_view v)) [
              | inr pending_now ↦
                  restrict_and_enter-Enters v stable k1 z valid1
                    (else_inv (ltb k.my_latest_pending_view v) _ _ pending_now e5)
              | inl new_one ↦
                  let (moved, ran, e6) =
                    bind_inv (try_new_pending_view d v stable k1) _ _
                      (then_inv (ltb k.my_latest_pending_view v) _ _ new_one e5) in
                  let valid2 = try_new_pending_view-IsValid d v stable k1 moved valid1 ran in
                  elim (Bool-cases moved.0) [
                    | inr stays ↦
                        subst (Enters v stable)
                          (some_inj (then_inv (not moved.0) _ _ (ap not stays) e6))
                          (valid2, (λ h. absurd (cc h)))
                    | inl goes_on ↦
                        restrict_and_enter-Enters v stable moved.1 z valid2
                          (else_inv (not moved.0) _ _ (ap not goes_on) e6)
                  ]
            ]
      ]
