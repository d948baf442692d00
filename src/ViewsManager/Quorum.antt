-- ===== src/ViewsManager/Quorum.antt =====
-- A view becomes pending only with a quorum of view change messages for it.
use concord_rcanopus.Base.{
  ℕ, suc, ◌+◌, ◌-◌, ◌≡◌, inl, inr, refl, ap, ◌∙◌, Bool, true, false, not, ◌&&◌, ◌||◌, Option, none,
  some, List, [], ◌∷◌, arith, ltb, ◌==◌, ==→eq, if◌then◌else◌, get_elem?, Bool-cases, and_true,
  if_true, if_false, bind_inv,
}
use mathlib.Core.Path.{subst}
use concord_rcanopus.ViewsManager.{
  SignedViewChange, NewViewMsg, ViewsManager, Digests, is_some, is_for_view, quorum,
  includes_view_change,
}
use concord_rcanopus.ViewsManager.Pending.{
  cleared, mark_as_primary, count_marks, move_marked, mark_included,
}

-- The messages for the view, and that there are no others.
abbrev pub count_for : ℕ → List (Option SignedViewChange) → ℕ
count_for v [] = 0
count_for v (m ∷ rest) = if is_for_view v m then suc (count_for v rest) else count_for v rest

abbrev pub all_for : ℕ → List (Option SignedViewChange) → Bool
all_for v [] = true
all_for v (m ∷ rest) = (not (is_some m) || is_for_view v m) && all_for v rest

abbrev pub all_none : {A : Type 0} → List (Option A) → Bool
all_none [] = true
all_none (m ∷ rest) = not (is_some m) && all_none rest

-- Marked messages are for the view.
abbrev pub selects : ℕ → List Bool → List (Option SignedViewChange) → Bool
selects v (b ∷ marks) (m ∷ msgs) = (not b || is_for_view v m) && selects v marks msgs
selects v marks msgs = true

pub cleared_none : {A : Type 0} (B : Type 0) (xs : List A) → all_none (cleared {B = B} xs) ≡ true
cleared_none B [] = refl
cleared_none B (x ∷ xs) = cleared_none B xs

none_for :
    (v : ℕ) (used : List (Option SignedViewChange))
    → all_none used ≡ true
    → (count_for v used ≡ 0) × (all_for v used ≡ true)
none_for v [] h = (refl, refl)
none_for v (none ∷ used) h = none_for v used h
none_for v (some m ∷ used) h = absurd (cc h)

-- A message that is marked counts, and one that is not marked leaves none behind.
pub move_marked-quorum :
    (v : ℕ) (marks : List Bool) (kept used : List (Option SignedViewChange))
    (moved : List (Option SignedViewChange) × List (Option SignedViewChange))
    → selects v marks kept ≡ true
    → all_none used ≡ true
    → move_marked marks kept used ≡ some moved
    → (count_for v moved.1 ≡ count_marks marks) × (all_for v moved.1 ≡ true)
unfolding move_marked count_marks
move_marked-quorum v [] kept used moved sel clear e =
    subst
      (λ (z : List (Option SignedViewChange) × List (Option SignedViewChange)).
        (count_for v z.1 ≡ 0) × (all_for v z.1 ≡ true))
      {x = (kept, used)} {y = moved} (cc e) (none_for v used clear)
move_marked-quorum v (b ∷ marks) [] used moved sel clear e = absurd (cc e)
move_marked-quorum v (true ∷ marks) (m ∷ kept) [] moved sel clear e = absurd (cc e)
move_marked-quorum v (false ∷ marks) (m ∷ kept) [] moved sel clear e = absurd (cc e)
move_marked-quorum v (b ∷ marks) (m ∷ kept) (some u ∷ used) moved sel clear e = absurd (cc clear)
move_marked-quorum v (false ∷ marks) (m ∷ kept) (none ∷ used) moved sel clear e =
    let (later, ran, same) = bind_inv (move_marked marks kept used) _ _ e in
    subst
      (λ (z : List (Option SignedViewChange) × List (Option SignedViewChange)).
        (count_for v z.1 ≡ count_marks marks) × (all_for v z.1 ≡ true))
      {x = (m ∷ later.0, none ∷ later.1)} {y = moved} (cc same)
      (move_marked-quorum v marks kept used later sel clear ran)
move_marked-quorum v (true ∷ marks) (m ∷ kept) (none ∷ used) moved sel clear e =
    let (later, ran, same) = bind_inv (move_marked marks kept used) _ _ e in
    let (fits, sel') = and_true (is_for_view v m) (selects v marks kept) sel in
    let (counted, others) = move_marked-quorum v marks kept used later sel' clear ran in
    subst
      (λ (z : List (Option SignedViewChange) × List (Option SignedViewChange)).
        (count_for v z.1 ≡ suc (count_marks marks)) × (all_for v z.1 ≡ true))
      {x = (none ∷ later.0, m ∷ later.1)} {y = moved} (cc same)
      (
        if_true (is_for_view v m) _ _ fits ∙ ap suc counted,
        both (not (is_some m) || is_for_view v m) _ (second (not (is_some m)) _ fits) others,
      )
  where
    both : (a b : Bool) → a ≡ true → b ≡ true → a && b ≡ true
    both true b ha hb = hb
    both false b ha hb = absurd (cc ha)

    second : (a b : Bool) → b ≡ true → a || b ≡ true
    second true b h = refl
    second false b h = h

-- The own message is for the view, and so is every other that is marked.
pub mark_as_primary-selects :
    (my_id v i room : ℕ) (msgs : List (Option SignedViewChange))
    → ((j : ℕ) (m : Option SignedViewChange)
        → get_elem? msgs j ≡ some m
        → i + j ≡ my_id
        → is_for_view v m ≡ true)
    → selects v (mark_as_primary my_id v i room msgs) msgs ≡ true
unfolding mark_as_primary
mark_as_primary-selects my_id v i room [] own = refl
mark_as_primary-selects my_id v i room (m ∷ msgs) own =
    let later = λ (r : ℕ).
      mark_as_primary-selects my_id v (i + 1) r msgs
        (λ j m' found place. own (suc j) m' found (omega (arith, place))) in
    elim (Bool-cases (i == my_id)) [
      | inl here ↦
          ap (λ marks. selects v marks (m ∷ msgs)) (if_true (i == my_id) _ _ here)
          ∙ ap (λ b. b && selects v (mark_as_primary my_id v (i + 1) room msgs) msgs)
              (own 0 m refl (omega (arith, ==→eq i my_id here)))
          ∙ later room
      | inr other ↦
          ap (λ marks. selects v marks (m ∷ msgs)) (if_false (i == my_id) _ _ other)
          ∙ elim (Bool-cases (is_for_view v m && ltb 0 room)) [
            | inl taken ↦
                ap (λ marks. selects v marks (m ∷ msgs))
                  (if_true (is_for_view v m && ltb 0 room) _ _ taken)
                ∙ ap (λ b. b && selects v (mark_as_primary my_id v (i + 1) (room - 1) msgs) msgs)
                    (and_true (is_for_view v m) (ltb 0 room) taken).0
                ∙ later (room - 1)
            | inr left ↦
                ap (λ marks. selects v marks (m ∷ msgs))
                  (if_false (is_for_view v m && ltb 0 room) _ _ left)
                ∙ later room
          ]
    ]

pub mark_included-selects :
    (d : Digests) (v : ℕ) (elements : List (ℕ × ℕ)) (msgs : List (Option SignedViewChange))
    → selects v (mark_included d v elements msgs) msgs ≡ true
unfolding mark_included
mark_included-selects d v elements [] = refl
mark_included-selects d v elements (none ∷ msgs) = mark_included-selects d v elements msgs
mark_included-selects d v elements (some vc ∷ msgs) =
    ap (λ b. b && selects v (mark_included d v elements msgs) msgs)
      (implied (vc.message.new_view == v)
        (includes_view_change elements vc.id_of_generated_replica (d.digest_of_view_change vc)))
    ∙ mark_included-selects d v elements msgs
  where
    implied : (a b : Bool) → not (a && b) || a ≡ true
    implied true true = refl
    implied true false = refl
    implied false b = refl

-- Without a new view message no view change message is held for the pending view.
abbrev pub IsCleared : ViewsManager → Type 0
IsCleared k =
    is_some k.new_view_msg_of_pending_view ≡ false
    → all_none k.view_change_msgs_of_pending_view ≡ true

-- The view is pending with a quorum: 2F + 2C + 1 view change messages, all of them for the view, and
-- a new view message for it.
abbrev pub Counts : ℕ → ViewsManager → Type 0
Counts v k =
    (count_for v k.view_change_msgs_of_pending_view ≡ quorum k.replicas_info)
    × (all_for v k.view_change_msgs_of_pending_view ≡ true)
    × (nv : NewViewMsg) × (k.new_view_msg_of_pending_view ≡ some nv)
    × (nv.new_view ≡ v)

abbrev pub IsQuorum : ℕ → ViewsManager → Type 0
IsQuorum v k = (k.my_latest_pending_view ≡ v) × (Counts v k)
