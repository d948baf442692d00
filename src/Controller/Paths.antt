-- ===== src/Controller/Paths.antt =====
-- What the controller decides at the end of a period: the commit path and the slow path time.
use concord_rcanopus.Base.{
  ℕ, zero, suc, ◌+◌, ◌-◌, ◌*◌, ◌/◌, ◌≤◌, ◌≡◌, ◌⊎◌, inl, inr, refl, ap, ◌∙◌, Option, Bool, true,
  false, not, ◌&&◌, none, some, arith, leb, ◌==◌, if◌then◌else◌, le→leb, not_le→leb, lt→ltb,
  not_lt→ltb, eq→==, ne→==, length, Bool-cases,
}
use native.Mathlib.Decide.{dec_le}
use concord_rcanopus.ActiveWindow
use concord_rcanopus.Controller.{
  CommitPath, optimistic_fast, fast_with_threshold, slow, SeqNoInfo, period, Statistics, Controller,
  upgrade, downgrade, new_slow_path_time, rel_min, rel_max, clamp, count_cycle, count_cooperation,
  count_fast_paths, choose_path, is_optimistic,
}
use concord_rcanopus.ActiveWindow.Inside.{IsAligned}
use concord_rcanopus.Controller.Period.{get_lem}
use concord_rcanopus.Controller.Invariant.{IsValid}

rel_min_lem : (t : ℕ) → t ≤ 2000 → rel_min t ≡ 4 * t / 5
unfolding rel_min
rel_min_lem t h = omega arith

rel_max_lem : (t : ℕ) → t ≤ 2000 → rel_max t ≡ 6 * t / 5
unfolding rel_max
rel_max_lem t h = omega arith

clamped :
    (t low high estimate : ℕ)
    → 20 ≤ t
    → t ≤ 2000
    → low ≡ 4 * t / 5
    → high ≡ 6 * t / 5
    → (4 * t ≤ 5 * clamp 20 2000 (clamp low high estimate) + 4)
      × (5 * clamp 20 2000 (clamp low high estimate) ≤ 6 * t)
      × (20 ≤ clamp 20 2000 (clamp low high estimate))
      × (clamp 20 2000 (clamp low high estimate) ≤ 2000)
clamped t low high estimate least most l h = ground arith

-- Whatever the measured average is, an update of a slow path time from 20 to 2000 milliseconds
-- changes it by a fifth at most, up to rounding down to a millisecond, and keeps it from 20 to 2000.
pub new_slow_path_time_lem :
    (t estimate : ℕ)
    → 20 ≤ t
    → t ≤ 2000
    → (4 * t ≤ 5 * new_slow_path_time t estimate + 4)
      × (5 * new_slow_path_time t estimate ≤ 6 * t)
      × (20 ≤ new_slow_path_time t estimate)
      × (new_slow_path_time t estimate ≤ 2000)
unfolding new_slow_path_time
new_slow_path_time_lem t estimate least most =
    clamped t (rel_min t) (rel_max t) estimate least most (rel_min_lem t most) (rel_max_lem t most)

some_inj : {A : Type 0} (x y : A) → some x ≡ some y → x ≡ y
some_inj x y e = cc e

upgraded :
    (c full partial : ℕ)
    → ((61 ≤ full) × (upgrade (c == 0) full partial ≡ (optimistic_fast, true)))
      ⊎ (((full ≤ 60)
            × (1 ≤ c)
            × (55 ≤ full + partial)
            × (upgrade (c == 0) full partial ≡ (fast_with_threshold, true)))
          ⊎ ((full ≤ 60)
              × ((c ≡ 0) ⊎ (full + partial ≤ 54))
              × (upgrade (c == 0) full partial ≡ (slow, false))))
unfolding upgrade
upgraded c full partial = elim (dec_le 61 full) [
  | yes enough ↦ inl (enough, rw (le→leb (95 * 64) (100 * full) (omega arith)) refl)
  | no few ↦ elim (dec_le 1 c) [
    | no none_spare ↦ inr (
        inr (
          omega arith,
          inl (omega arith),
          rw (not_le→leb (95 * 64) (100 * full) (omega arith), eq→== c 0 (omega arith)) refl,
        ))
    | yes spare ↦ elim (dec_le 55 (full + partial)) [
      | yes most ↦ inr (
          inl (
            omega arith,
            spare,
            most,
            rw
                (
                  not_le→leb (95 * 64) (100 * full) (omega arith),
                  ne→== c 0 (omega arith),
                  le→leb (85 * 64) (100 * (full + partial)) (omega arith),
                )
                refl,
          ))
      | no less ↦ inr (
          inr (
            omega arith,
            inr (omega arith),
            rw
                (
                  not_le→leb (95 * 64) (100 * full) (omega arith),
                  ne→== c 0 (omega arith),
                  not_le→leb (85 * 64) (100 * (full + partial)) (omega arith),
                )
                refl,
          ))
    ]
  ]
]

-- The downgrade of a fast path: none with at least 55 fast rounds, else one step down.
downgraded :
    (c : ℕ) (path : CommitPath) (successful : ℕ)
    → ((55 ≤ successful) × (downgrade (c == 0) path successful ≡ (path, false)))
      ⊎ ((successful ≤ 54)
          × (downgrade (c == 0) path successful
              ≡ (if not (c == 0) && is_optimistic path then fast_with_threshold else slow, true)))
unfolding downgrade
downgraded c path successful = elim (dec_le 55 successful) [
  | yes enough ↦ inl (enough, rw (not_lt→ltb (100 * successful) (85 * 64) (omega arith)) refl)
  | no few ↦ inr (omega arith, rw (lt→ltb (100 * successful) (85 * 64) (omega arith)) refl)
]

-- Whether a round that is in the window passes a test, as a number.
abbrev pub passes : (SeqNoInfo → Bool) → Option SeqNoInfo → ℕ
passes test none = 0
passes test (some info) = if test info then 1 else 0

-- The number of the `n` rounds from `i` on that pass a test; those out of the window do not.
abbrev pub rounds : (SeqNoInfo → Bool) → ActiveWindow.Window SeqNoInfo → ℕ → ℕ → ℕ
rounds test w zero i = 0
rounds test w (suc n) i = passes test (ActiveWindow.get period w i) + rounds test w n (i + 1)

-- A round with a message of every peer; one with fewer, of `3f + c` peers at least; and a round that
-- did not switch to the slow path.
abbrev pub is_full : {S : Type 0} → Controller S → SeqNoInfo → Bool
is_full k info = length info.replicas == k.num_of_replicas - 1

abbrev pub is_partial : {S : Type 0} → Controller S → SeqNoInfo → Bool
is_partial k info =
    not (length info.replicas == k.num_of_replicas - 1)
    && leb (3 * k.f + k.c) (length info.replicas)

abbrev pub stayed_fast : SeqNoInfo → Bool
stayed_fast info = not info.switch_to_slow_path

rounds-le :
    (test : SeqNoInfo → Bool) (other : SeqNoInfo → Bool) (w : ActiveWindow.Window SeqNoInfo)
    (n i : ℕ)
    → ((info : SeqNoInfo) → test info && other info ≡ false)
    → rounds test w n i + rounds other w n i ≤ n
rounds-le test other w zero i apart = omega arith
rounds-le test other w (suc n) i apart =
    omega (arith, one (ActiveWindow.get period w i), rounds-le test other w n (i + 1) apart)
  where
    both : (a b : Bool) → a && b ≡ false → (if a then 1 else 0) + (if b then 1 else 0) ≤ 1
    both true true h = absurd (cc h)
    both true false h = omega arith
    both false true h = omega arith
    both false false h = omega arith

    one : (o : Option SeqNoInfo) → passes test o + passes other o ≤ 1
    one none = omega arith
    one (some info) = both (test info) (other info) (apart info)

add_zero : (n : ℕ) → n ≡ n + 0
add_zero n = omega arith

from_zero : (n : ℕ) → 0 + n ≡ n
from_zero n = omega arith

add_assoc : (a b c : ℕ) → a + b + c ≡ a + (b + c)
add_assoc a b c = omega arith

pair_assoc :
    (a b c d e f : ℕ)
    → Path (Option (ℕ × ℕ)) (some (a + b + c, d + e + f)) (some (a + (b + c), d + (e + f)))
pair_assoc a b c d e f =
    ap (λ x. some (x, d + e + f)) (add_assoc a b c)
    ∙ ap (λ x. some (a + (b + c), x)) (add_assoc d e f)

one_more : (b : Bool) (n : ℕ) → (if b then n + 1 else n) ≡ n + (if b then 1 else 0)
one_more true n = refl
one_more false n = add_zero n

kinds_apart : (a b : Bool) → a && (not a && b) ≡ false
kinds_apart true b = refl
kinds_apart false b = refl

module _ {S : Type 0} (stats : Statistics S) where
  counted_once :
      (k : Controller S) (info : SeqNoInfo) (full partial : ℕ)
      → count_cycle stats k info (full, partial)
        ≡ (full + (if is_full k info then 1 else 0), partial + (if is_partial k info then 1 else 0))
  unfolding count_cycle
  counted_once k info full partial = elim (Bool-cases (is_full k info)) [
    | inl e ↦ rw e (ap (λ x. (full + 1, x)) (add_zero partial))
    | inr e ↦ elim (Bool-cases (leb (3 * k.f + k.c) (length info.replicas))) [
      | inl g ↦ rw (e, g) (ap (λ x. (x, partial + 1)) (add_zero full))
      | inr g ↦
          rw (e, g)
            (ap (λ x. (x, partial)) (add_zero full) ∙ ap (λ x. (full + 0, x)) (add_zero partial))
    ]
  ]

  -- The loop counts the rounds of each kind.
  count_cooperation-rounds :
      (k : Controller S) (left i full partial : ℕ)
      → IsAligned period k.recent_activity
      → k.recent_activity.beginning ≤ i
      → i + left ≤ k.recent_activity.beginning + 64
      → count_cooperation stats k left i (full, partial)
        ≡ some (
          full + rounds (is_full k) k.recent_activity left i,
          partial + rounds (is_partial k) k.recent_activity left i,
        )
  unfolding count_cooperation ActiveWindow.inside
  count_cooperation-rounds k zero i full partial aligned from upto =
      ap (λ x. some (x, partial)) (add_zero full) ∙ ap (λ x. some (full + 0, x)) (add_zero partial)
  count_cooperation-rounds k (suc left) i full partial aligned from upto =
      let (info, e) = get_lem k.recent_activity i aligned (ground arith) in
      rw e (
        ap (count_cooperation stats k left (i + 1)) (counted_once k info full partial)
        ∙ count_cooperation-rounds k left (i + 1) _ _ aligned (omega arith) (omega arith)
        ∙ pair_assoc full _ _ partial _ _)

  count_fast_paths-rounds :
      (k : Controller S) (left i successful : ℕ)
      → IsAligned period k.recent_activity
      → k.recent_activity.beginning ≤ i
      → i + left ≤ k.recent_activity.beginning + 64
      → count_fast_paths stats k left i successful
        ≡ some (successful + rounds stayed_fast k.recent_activity left i)
  unfolding count_fast_paths ActiveWindow.inside
  count_fast_paths-rounds k zero i successful aligned from upto = ap some (add_zero successful)
  count_fast_paths-rounds k (suc left) i successful aligned from upto =
      let (info, e) = get_lem k.recent_activity i aligned (ground arith) in
      rw e (
        ap (count_fast_paths stats k left (i + 1))
          (one_more (not info.switch_to_slow_path) successful)
        ∙ count_fast_paths-rounds k left (i + 1) _ aligned (omega arith) (omega arith)
        ∙ ap some (add_assoc successful _ _))

  choose_downgraded :
      (k : Controller S) (path : CommitPath) (successful : ℕ) (choice : CommitPath × Bool)
      → (path ≡ optimistic_fast) ⊎ (path ≡ fast_with_threshold)
      → count_fast_paths stats k 64 k.recent_activity.beginning 0 ≡ some successful
      → downgrade (k.c == 0) path successful ≡ choice
      → choose_path stats k path ≡ some (choice.0, (choice.1, choice.1))
  unfolding choose_path
  choose_downgraded k path successful choice (inl same) e u = rw (same, e, rw same at u) refl
  choose_downgraded k path successful choice (inr same) e u = rw (same, e, rw same at u) refl

  -- The decision of a valid controller on the slow path, from the period's 64 rounds, of which `full`
  -- had a prepare message of every peer and `partial` of fewer, but of 3f + c at least: with at least
  -- 61 full ones the next path is the optimistic fast one; otherwise, with at least 55 of both kinds
  -- and a `c` that is not 0, the fast path with a threshold; otherwise it stays slow. The path is
  -- reported as changed exactly in the first two cases, and never as downgraded.
  pub choose_path_slow :
      (k : Controller S)
      → IsValid k
      → let full = rounds (is_full k) k.recent_activity 64 k.recent_activity.beginning in
        let partial = rounds (is_partial k) k.recent_activity 64 k.recent_activity.beginning in
        (full + partial ≤ 64)
        × (((61 ≤ full) × (choose_path stats k slow ≡ some (optimistic_fast, (true, false))))
            ⊎ (((full ≤ 60)
                  × (1 ≤ k.c)
                  × (55 ≤ full + partial)
                  × (choose_path stats k slow ≡ some (fast_with_threshold, (true, false))))
                ⊎ ((full ≤ 60)
                    × ((k.c ≡ 0) ⊎ (full + partial ≤ 54))
                    × (choose_path stats k slow ≡ some (slow, (false, false))))))
  unfolding choose_path
  choose_path_slow k valid =
      let begin = k.recent_activity.beginning in
      let full = rounds (is_full k) k.recent_activity 64 begin in
      let partial = rounds (is_partial k) k.recent_activity 64 begin in
      let e : count_cooperation stats k 64 begin (0, 0) ≡ some (full, partial) =
        count_cooperation-rounds k 64 begin 0 0 valid.aligned (omega arith) (omega arith)
        ∙ ap (λ x. some (x, 0 + partial)) (from_zero full)
        ∙ ap (λ x. some (full, x)) (from_zero partial) in
      (
        rounds-le (is_full k) (is_partial k) k.recent_activity 64 begin
            (λ info. kinds_apart (is_full k info) _),
        elim (upgraded k.c full partial) [
          | inl (enough, u) ↦ inl (enough, rw (e, u) refl)
          | inr (inl (few, spare, together, u)) ↦ inr (inl (few, spare, together, rw (e, u) refl))
          | inr (inr (few, why, u)) ↦ inr (inr (few, why, rw (e, u) refl))
        ],
      )

  -- The decision of a valid controller on a fast path, from the number of the period's 64 rounds that
  -- did not switch to the slow path: with at least 55 of them the path is kept; otherwise it is
  -- downgraded, from the optimistic fast path to the one with a threshold when `c` is not 0, and to
  -- the slow path in every other case, and the change is reported.
  pub choose_path_fast :
      (k : Controller S) (path : CommitPath)
      → IsValid k
      → (path ≡ optimistic_fast) ⊎ (path ≡ fast_with_threshold)
      → let successful = rounds stayed_fast k.recent_activity 64 k.recent_activity.beginning in
        ((55 ≤ successful) × (choose_path stats k path ≡ some (path, (false, false))))
        ⊎ ((successful ≤ 54)
            × (choose_path stats k path
                ≡ some (
                  if not (k.c == 0) && is_optimistic path then fast_with_threshold else slow,
                  (true, true),
                )))
  unfolding choose_path
  choose_path_fast k path valid fast =
      let begin = k.recent_activity.beginning in
      let successful = rounds stayed_fast k.recent_activity 64 begin in
      let e =
        count_fast_paths-rounds k 64 begin 0 valid.aligned (omega arith) (omega arith)
        ∙ ap some (from_zero successful) in
      elim (downgraded k.c path successful) [
        | inl (enough, u) ↦ inl (enough, choose_downgraded k path successful (path, false) fast e u)
        | inr (few, u) ↦ inr (few, choose_downgraded k path successful _ fast e u)
      ]
