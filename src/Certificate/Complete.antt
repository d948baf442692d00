-- ===== src/Certificate/Complete.antt =====
-- A certificate becomes complete when enough replicas agree and the own message is there.
use mathlib.Core.Path.{subst}
use concord_rcanopus.Base.{
  ℕ, ◌+◌, ◌≤◌, ◌≡◌, inl, inr, refl, sym, ap, Bool, true, false, Option, none, some, List, [], ◌∷◌,
  arith, if◌then◌else◌, length, Option-cases, ◌>>=◌,
}
use concord_rcanopus.Certificate.{
  Config, Certificate, MsgMap, lookup, is_some, make, has_msg_from_replica, is_complete, classify,
  add_msg, add_all,
}
use concord_rcanopus.Certificate.Own.{IsEquivalence}
use concord_rcanopus.Certificate.Waiting.{
  AllFresh, arrived, AllAgree, one_class, Progress, Leads, classify-Leads, classify_first,
}

module _ {T : Type 0} (equivalent : T → T → Bool) (cfg : Config) (x0 : T) where
  pub kept :
      (b : Bool) (stored : Certificate T) (other : Option (Certificate T))
      → b ≡ true
      → ◌>>=◌ {B = Certificate T × Bool} (if b then some stored else other) (λ c. some (c, true))
        ≡ some (stored, true)
  kept true stored other e = refl
  kept false stored other e = absurd (cc e)

  -- What one more message leads to.
  Steps : MsgMap T → Option (Certificate T × Bool) → Type 0
  Steps msgs result =
      (c : Certificate T) × ((accepted : Bool) × (result ≡ some (c, accepted))
        × Progress equivalent cfg x0 msgs c)

  done_Steps :
      (c : Certificate T) (msgs : MsgMap T) (x : T) (r : ℕ)
      → c.complete ≡ true
      → Steps msgs (add_msg equivalent c x r)
  unfolding Steps Progress add_msg has_msg_from_replica
  done_Steps c msgs x r done = elim (Option-cases (lookup r c.msgs)) [
    | inl fresh ↦ (
      record c { msgs = (r, x) ∷ c.msgs },
      (
        true,
        rw fresh (
            kept c.complete (record c { msgs = (r, x) ∷ c.msgs })
              (classify equivalent (record c { msgs = (r, x) ∷ c.msgs }) x r) done),
        inl done,
      ),
    )
    | inr (m, sent) ↦ (c, (false, rw sent refl, inl done))
  ]

  waiting_Steps :
      (msgs : MsgMap T) (size rep : ℕ) (trusted : Bool) (x : T) (r : ℕ)
      → lookup r msgs ≡ none
      → Leads equivalent cfg x0
          ((r, x) ∷ msgs)
          (classify equivalent (one_class equivalent cfg x0 ((r, x) ∷ msgs) size rep trusted) x r)
      → Steps
          ((r, x) ∷ msgs)
          (add_msg equivalent (one_class equivalent cfg x0 msgs size rep trusted) x r)
  unfolding Steps add_msg has_msg_from_replica
  waiting_Steps msgs size rep trusted x r fresh (c, e, p) = (c, (true, rw (fresh, e) refl, p))

  first_Steps :
      (x : T) (r : ℕ)
      → Leads equivalent cfg x0
          ((r, x) ∷ [])
          (classify equivalent (record (make cfg) { msgs = (r, x) ∷ [] }) x r)
      → Steps ((r, x) ∷ []) (add_msg equivalent (make cfg) x r)
  unfolding Steps add_msg has_msg_from_replica make
  first_Steps x r (c, e, p) = (c, (true, rw e refl, p))

  step :
      (msgs : MsgMap T) (c : Certificate T) (x : T) (r : ℕ)
      → IsEquivalence equivalent
      → 2 ≤ cfg.required
      → 1 ≤ cfg.num_of_reps
      → lookup r msgs ≡ none
      → equivalent x0 x ≡ true
      → Progress equivalent cfg x0 msgs c
      → Steps ((r, x) ∷ msgs) (add_msg equivalent c x r)
  unfolding Progress
  step msgs c x r eq several room fresh agrees (inl done) = done_Steps c ((r, x) ∷ msgs) x r done
  step msgs c x r eq several room fresh agrees (inr (inl (empty, start))) =
      subst (λ ms. Steps ((r, x) ∷ ms) (add_msg equivalent c x r)) (sym empty)
        (subst (λ k. Steps ((r, x) ∷ []) (add_msg equivalent k x r)) (sym start)
          (first_Steps x r (classify_first equivalent cfg x0 x r several room agrees)))
  step msgs c x r eq several room fresh agrees (inr (inr (size, (rep, (trusted, now, w))))) =
      subst (λ k. Steps ((r, x) ∷ msgs) (add_msg equivalent k x r)) (sym now)
        (waiting_Steps msgs size rep trusted x r fresh
          (classify-Leads equivalent cfg x0 msgs size rep trusted x r eq fresh agrees w))

  pub run :
      (msgs : MsgMap T) (c : Certificate T) (ms : List (T × ℕ))
      → IsEquivalence equivalent
      → 2 ≤ cfg.required
      → 1 ≤ cfg.num_of_reps
      → AllFresh equivalent cfg x0 msgs ms
      → AllAgree equivalent cfg x0 ms
      → Progress equivalent cfg x0 msgs c
      → (c' : Certificate T) × (add_all equivalent c ms ≡ some c')
        × Progress equivalent cfg x0 (arrived equivalent cfg x0 msgs ms) c'
  unfolding add_all Steps
  run msgs c [] eq several room fresh agree p = (c, refl, p)
  run msgs c ((x, r) ∷ rest) eq several room (fresh, later) (agrees, others) p =
      let (c', (accepted, e, p')) = step msgs c x r eq several room fresh agrees p in
      let (c'', runs, end) = run ((r, x) ∷ msgs) c' rest eq several room later others p' in
      (c'', rw e runs, end)

  pub length-arrived :
      (msgs : MsgMap T) (ms : List (T × ℕ))
      → length (arrived equivalent cfg x0 msgs ms) ≡ length msgs + length ms
  length-arrived msgs [] = omega arith
  length-arrived msgs ((x, r) ∷ rest) = omega (arith, length-arrived ((r, x) ∷ msgs) rest)

  finished :
      (msgs : MsgMap T) (c : Certificate T)
      → 1 ≤ cfg.required
      → cfg.required ≤ length msgs
      → is_some (lookup cfg.self_id msgs) ≡ true
      → Progress equivalent cfg x0 msgs c
      → c.complete ≡ true
  unfolding Progress
  finished msgs c some_required enough own (inl done) = done
  finished msgs c some_required enough own (inr (inl (empty, start))) =
      absurd (omega (arith, ap length empty))
  finished msgs c some_required enough own (inr (inr (size, (rep, (trusted, now, w))))) =
      absurd (cc (own, (w.missing (omega (arith, w.large))).1))

  -- When messages that are all equivalent come from distinct replicas, the own one among them, and
  -- are as many as are required, at least two, then a new certificate, with room for a class, takes
  -- them in any order without a fault and is complete in the end.
  pub add_all_complete :
      (ms : List (T × ℕ))
      → IsEquivalence equivalent
      → 2 ≤ cfg.required
      → 1 ≤ cfg.num_of_reps
      → AllFresh equivalent cfg x0 [] ms
      → AllAgree equivalent cfg x0 ms
      → cfg.required ≤ length ms
      → is_some (lookup cfg.self_id (arrived equivalent cfg x0 [] ms)) ≡ true
      → (c : Certificate T) × (add_all equivalent (make cfg) ms ≡ some c) × (is_complete c ≡ true)
  unfolding is_complete Progress
  add_all_complete ms eq several room fresh agree enough own =
      let (c, runs, p) =
        run [] (make cfg) ms eq several room fresh agree (inr (inl (refl, refl))) in
      (
        c,
        runs,
        finished (arrived equivalent cfg x0 [] ms) c (omega arith)
            (omega (arith, length-arrived [] ms)) own p,
      )
