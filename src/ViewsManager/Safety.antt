-- ===== src/ViewsManager/Safety.antt =====
-- Every operation keeps the invariant, so every view that is entered in a run has a quorum and obeys
-- the restrictions.
use concord_rcanopus.Base.{
  ℕ, zero, suc, ◌+◌, ◌-◌, ◌*◌, ◌≤◌, ◌<◌, ◌≡◌, inl, inr, refl, sym, Bool, true, false, not, ◌&&◌,
  Option, none, some, List, arith, replicate, ltb, leb, leb→le, ◌==◌, ==→eq, if◌then◌else◌,
  get_elem?, Bool-cases, and_true, ◌>>=◌, refuted, bind_inv, assert_inv, some_inj, then_inv,
  else_inv,
}
use mathlib.Core.Path.{subst}
use concord_rcanopus.Replicas.{ReplicasInfo, primary_of_view}
use concord_rcanopus.ViewChange.Restrictions.{Restriction, work_window_size}
use concord_rcanopus.ViewsManager.{
  SignedViewChange, NewViewMsg, PrePrepareMsg, PrevViewInfo, ViewsManager, Digests, is_some,
  is_with_restrictions, make, ignores, add_new_view, add_view_change,
}
use concord_rcanopus.ViewsManager.Missing.{
  is_restricted, is_needed, with_message, add_potentially_missing_pp,
}
use concord_rcanopus.ViewsManager.Entering.{try_to_enter_view}
use concord_rcanopus.ViewsManager.Exit.{exit_from_current_view}
use concord_rcanopus.ViewsManager.Quorum.{all_none}
use concord_rcanopus.ViewsManager.Arrays.{set-Fits}
use concord_rcanopus.ViewsManager.Moving.{span, IsValid}
use concord_rcanopus.ViewsManager.Invariant.{with_messages-IsValid, idle-IsValid}
use concord_rcanopus.ViewsManager.Entered.{IsEntered, try_to_enter_view-Enters}
use concord_rcanopus.ViewsManager.Leaving.{exit_from_current_view-IsValid}

add_new_view-IsValid :
    (d : Digests) (m : NewViewMsg) (k : ViewsManager) (z : Bool × ViewsManager)
    → IsValid k
    → add_new_view d m k ≡ some z
    → IsValid z.1
unfolding add_new_view
add_new_view-IsValid d m k z valid e =
    let (h1, e1) = assert_inv (not (m.sender_id == k.replicas_info.my_id)) _ _ e in
    let (h2, e2) = assert_inv (m.sender_id == primary_of_view k.replicas_info m.new_view) _ _ e1 in
    let old_view = leb m.new_view k.my_latest_pending_view in
    elim (Bool-cases old_view) [
      | inl late ↦
          subst (λ (x : Bool × ViewsManager). IsValid x.1)
            (some_inj (then_inv old_view _ _ late e2)) valid
      | inr new ↦
          let (old, h3, e3) =
            bind_inv (get_elem? k.new_view_messages m.sender_id) _ _
              (else_inv old_view _ _ new e2) in
          subst (λ (x : Bool × ViewsManager). IsValid x.1) (some_inj e3)
            (with_messages-IsValid k k.view_change_messages _ k.debug_highest_known_stable
              k.debug_highest_view valid)
    ]

add_view_change-IsValid :
    (d : Digests) (m : SignedViewChange) (k : ViewsManager) (z : Bool × ViewsManager)
    → IsValid k
    → add_view_change d m k ≡ some z
    → IsValid z.1
unfolding add_view_change
add_view_change-IsValid d m k z valid e =
    let v = m.message.new_view in
    let id = m.id_of_generated_replica in
    let (h1, e1) = assert_inv (not (id == k.replicas_info.my_id)) _ _ e in
    let old_view = leb v k.my_latest_pending_view in
    elim (Bool-cases old_view) [
      | inl late ↦
          subst (λ (x : Bool × ViewsManager). IsValid x.1)
            (some_inj (then_inv old_view _ _ late e1)) valid
      | inr new ↦
          let (nv, h2, e2) =
            bind_inv (get_elem? k.new_view_messages (primary_of_view k.replicas_info v)) _ _
              (else_inv old_view _ _ new e1) in
          let (prev, h3, e3) = bind_inv (get_elem? k.view_change_messages id) _ _ e2 in
          let ignored = ignores d nv prev v id in
          elim (Bool-cases ignored) [
            | inl yes_ ↦
                subst (λ (x : Bool × ViewsManager). IsValid x.1)
                  (some_inj (then_inv ignored _ _ yes_ e3)) valid
            | inr kept ↦
                subst (λ (x : Bool × ViewsManager). IsValid x.1)
                  (some_inj (else_inv ignored _ _ kept e3))
                  (with_messages-IsValid k _ k.new_view_messages k.debug_highest_known_stable
                    k.debug_highest_view valid)
          ]
    ]

in_span :
    (lo hi s : ℕ)
    → (lo == 0) ≡ false
    → lo ≤ s
    → s ≤ hi
    → s - lo < (if lo == 0 then 0 else hi + 1 - lo)
in_span lo hi s restricted above below = ground arith

with_message-IsValid :
    (k : ViewsManager) (p : PrePrepareMsg) (r : Restriction) (pp : Option PrePrepareMsg)
    → IsValid k
    → is_restricted p.seq_number k ≡ true
    → get_elem? k.restrictions (p.seq_number - k.min_restriction) ≡ some r
    → is_needed r pp p ≡ true
    → IsValid (with_message (p.seq_number - k.min_restriction) p k)
unfolding with_message
with_message-IsValid k p r pp valid restricted found needed =
    let (most, below) =
      and_true (not (k.min_restriction == 0) && leb k.min_restriction p.seq_number)
        (leb p.seq_number k.max_restriction) restricted in
    let (set_, above) =
      and_true (not (k.min_restriction == 0)) (leb k.min_restriction p.seq_number) most in
    let (free, digest) =
      and_true (not (is_some pp) && not r.is_null) (r.digest == p.digest_of_requests) needed in
    let (absent, not_null) = and_true (not (is_some pp)) (not r.is_null) free in
    let from = leb→le k.min_restriction p.seq_number above in
    record {
      cleared = valid.cleared;
      held = valid.held;
      fits =
          set-Fits k.min_restriction (span k) (p.seq_number - k.min_restriction) k.restrictions
            k.pre_prepare_msgs_of_restrictions r p
            (in_span k.min_restriction k.max_restriction p.seq_number (refuted _ set_) from
              (leb→le p.seq_number k.max_restriction below))
            valid.fits found
            (
              refuted r.is_null not_null,
              sym (==→eq r.digest p.digest_of_requests digest),
              omega (arith, from),
            );
      settled = valid.settled;
      waiting = valid.waiting;
      keyed = valid.keyed;
    }

add_potentially_missing_pp-IsValid :
    (p : PrePrepareMsg) (k : ViewsManager) (z : Bool × ViewsManager)
    → IsValid k
    → add_potentially_missing_pp p k ≡ some z
    → IsValid z.1
unfolding add_potentially_missing_pp
add_potentially_missing_pp-IsValid p k z valid e =
    let idx = p.seq_number - k.min_restriction in
    let (h1, e1) = assert_inv (is_with_restrictions k.stat) _ _ e in
    let (h2, e2) = assert_inv (not p.is_null) _ _ e1 in
    let inside = is_restricted p.seq_number k in
    elim (Bool-cases inside) [
      | inr outside ↦
          subst (λ (x : Bool × ViewsManager). IsValid x.1)
            (some_inj (else_inv inside _ _ outside e2)) valid
      | inl within ↦
          let (h3, e3) =
            assert_inv (ltb idx work_window_size) _ _ (then_inv inside _ _ within e2) in
          let (r, found, e4) = bind_inv (get_elem? k.restrictions idx) _ _ e3 in
          let (pp, h4, e5) = bind_inv (get_elem? k.pre_prepare_msgs_of_restrictions idx) _ _ e4 in
          let needed = is_needed r pp p in
          elim (Bool-cases needed) [
            | inl wanted ↦
                subst (λ (x : Bool × ViewsManager). IsValid x.1)
                  (then_inv needed _ _ wanted (some_inj e5))
                  (with_message-IsValid k p r pp valid within found wanted)
            | inr useless ↦
                subst (λ (x : Bool × ViewsManager). IsValid x.1)
                  (else_inv needed _ _ useless (some_inj e5)) valid
          ]
    ]

-- The operations that change the manager.
pub data Operation : Type 0 where
  adds_new_view : NewViewMsg → Operation
  adds_view_change : SignedViewChange → Operation
  exits : (stable executed : ℕ) (infos : List PrevViewInfo) → Operation
  tries_to_enter : (v stable executed : ℕ) → Operation
  adds_missing : PrePrepareMsg → Operation

-- The manager after an operation.
unfoldable pub perform : Digests → Operation → ViewsManager → Option ViewsManager
perform d (adds_new_view m) k = do z ← add_new_view d m k; some z.1
perform d (adds_view_change m) k = do z ← add_view_change d m k; some z.1
perform d (exits stable executed infos) k = do
  z ← exit_from_current_view stable executed infos k
  some z.1
perform d (tries_to_enter v stable executed) k = do
  z ← try_to_enter_view d v stable executed k
  some z.2
perform d (adds_missing p) k = do z ← add_potentially_missing_pp p k; some z.1

pub data Reachable (d : Digests) : ViewsManager → Type 0 where
  begins : {k : ViewsManager} (r : ReplicasInfo) → make r ≡ some k → Reachable d k
  goes_on :
      {k k' : ViewsManager} (op : Operation)
      → Reachable d k
      → perform d op k ≡ some k'
      → Reachable d k'

make-IsValid : (r : ReplicasInfo) (k : ViewsManager) → make r ≡ some k → IsValid k
unfolding make
make-IsValid r k e =
    let (configured, e1) =
      assert_inv (r.number_of_replicas == 3 * r.f_val + 2 * r.c_val + 1) _ _ e in
    subst IsValid (some_inj e1) (
      idle-IsValid _ refl refl (replicate_none PrePrepareMsg work_window_size)
        (replicate_none SignedViewChange r.number_of_replicas) tt)
  where
    replicate_none : (A : Type 0) (n : ℕ) → all_none {A = A} (replicate n none) ≡ true
    replicate_none A zero = refl
    replicate_none A (suc n) = replicate_none A n

-- Every operation that succeeds keeps the invariant: a pending view has its quorum, and the messages
-- at hand meet their restrictions.
pub perform-IsValid :
    (d : Digests) (op : Operation) (k k' : ViewsManager)
    → IsValid k
    → perform d op k ≡ some k'
    → IsValid k'
unfolding perform
perform-IsValid d (adds_new_view m) k k' valid e =
    let (z, ran, same) = bind_inv (add_new_view d m k) _ _ e in
    subst IsValid (some_inj same) (add_new_view-IsValid d m k z valid ran)
perform-IsValid d (adds_view_change m) k k' valid e =
    let (z, ran, same) = bind_inv (add_view_change d m k) _ _ e in
    subst IsValid (some_inj same) (add_view_change-IsValid d m k z valid ran)
perform-IsValid d (exits stable executed infos) k k' valid e =
    let (z, ran, same) = bind_inv (exit_from_current_view stable executed infos k) _ _ e in
    subst IsValid (some_inj same)
      (exit_from_current_view-IsValid stable executed infos k z valid ran)
perform-IsValid d (tries_to_enter v stable executed) k k' valid e =
    let (z, ran, same) = bind_inv (try_to_enter_view d v stable executed k) _ _ e in
    subst IsValid (some_inj same) (try_to_enter_view-Enters d v stable executed k z valid ran).0
perform-IsValid d (adds_missing p) k k' valid e =
    let (z, ran, same) = bind_inv (add_potentially_missing_pp p k) _ _ e in
    subst IsValid (some_inj same) (add_potentially_missing_pp-IsValid p k z valid ran)

pub run_keeps : (d : Digests) {k : ViewsManager} → Reachable d k → IsValid k
run_keeps d (begins {k = k} r made) = make-IsValid r k made
run_keeps d (goes_on {k = k} {k' = k'} op reached ran) =
    perform-IsValid d op k k' (run_keeps d reached) ran

-- After any run from the constructor, a replica that enters a view has 2F + 2C + 1 view change messages
-- for that view and a new view message for it. The pre-prepare messages that it enters with are those
-- of the restricted numbers above the stable one, each number once and in order: a null request where
-- the number has no restriction, and elsewhere a message with the digest of the restriction.
pub view_follows_restrictions :
    (d : Digests) (v stable executed : ℕ) (k k' : ViewsManager) (out : List PrePrepareMsg)
    → Reachable d k
    → try_to_enter_view d v stable executed k ≡ some (true, out, k')
    → IsEntered d v stable out k'
view_follows_restrictions d v stable executed k k' out reached e =
    (try_to_enter_view-Enters d v stable executed k (true, out, k') (run_keeps d reached) e).1 refl
