-- ===== src/Collector/Safety.antt =====
-- Every step of a run: no Assert fails, stale results included, and the signature that a collector
-- holds is valid.
use concord_rcanopus.Base.{
  ℕ, ◌<◌, ◌≡◌, inl, inr, refl, sym, ◌∙◌, Bool, true, false, not, ◌&&◌, Option, none, some, List, [],
  ◌∷◌, arith, ◌==◌, ==→eq, Bool-cases, and_true, if_true, if_false, length,
}
use mathlib.Core.Path.{subst}
use concord_rcanopus.Collector.{
  External, Collector, InternalMessage, created, is_none, reset_content, reset_and_free,
  get_and_reset, is_empty,
}
use concord_rcanopus.Collector.System.{
  InFlight, queued, reported, System, Action, partial_arrives, combined_arrives,
  pre_prepare_arrives, job_runs, result_arrives, reassigned, pick, is_relevant, number_of, run_job,
  deliver, step, Allowed, started, Reachable, begins, goes_on,
}
use concord_rcanopus.Collector.Shares.{both_true}
use concord_rcanopus.Collector.Invariant.{Relies, IsSound, TrackedOn, IsTracked}
use concord_rcanopus.Collector.Adding.{
  add_msg_with_partial_signature-Adds, add_msg_with_combined_signature-Adds,
}
use concord_rcanopus.Collector.Results.{set_expected-Sends, the_expected}
use concord_rcanopus.Collector.Picking.{
  keep, every_weaker, keep_none, Picked, pick-Picked, picked_every, picked_other,
}
use concord_rcanopus.Collector.Flight.{
  is_now, is_past, is_formed, IsLater, past_moved, tracked_picked,
}
use concord_rcanopus.Collector.Runs.{
  IsValid, Succeeds, added, sent, without, on_result-Succeeds, run_job-Succeeds,
}

module _ {Part Full Share Sig Acc : Type 0} (e : External Part Full Share Sig Acc) where
  -- A collector that was freed is sound, awaits nothing and expects nothing.
  abbrev IsFreed : Collector Part Full → Type 0
  IsFreed k =
      IsSound e k
      × (k.processing_signatures_in_the_background ≡ false)
      × (k.expected_seq_number ≡ 0)

  reset_and_free-IsSound : (k : Collector Part Full) → IsSound e k → IsFreed (reset_and_free k)
  unfolding reset_and_free reset_content
  reset_and_free-IsSound k sound = elim (Bool-cases (is_empty k)) [
    | inl empty ↦
        let (held, e3) =
          and_true
            (length k.replicas_info == 0
              && is_none k.combined_valid_signature_msg
              && is_none k.candidate_combined_signature_msg)
            (k.expected_seq_number == 0) empty in
        let unset = ==→eq k.expected_seq_number 0 e3 in
        subst IsFreed (sym (if_true (is_empty k) _ _ empty)) (sound, (sound.idle unset).0, unset)
    | inr full ↦ subst IsFreed {x = reset_content k} (sym (if_false (is_empty k) _ _ full)) (
      record {
        counted = record { ids = refl; present = refl; unknowns = refl };
        required = sound.required;
        verified = λ m found. absurd (cc found);
        idle = λ unset. (refl, refl);
      },
      refl,
      refl,
    )
  ]

  -- `getAndReset` gives the combined message and frees the collector.
  get_and_reset_lem :
      (k : Collector Part Full)
      → get_and_reset k ≡ (k.combined_valid_signature_msg, reset_and_free k)
  unfolding get_and_reset reset_and_free reset_content
  get_and_reset_lem k = refl

  reassigned-Succeeds :
      (s : System Part Full Share Sig) (view seq : ℕ)
      → IsValid e s
      → 0 < seq
      → IsLater s.current_view s.seq_number view seq
      → IsValid e (record s {
        collector = reset_and_free s.collector;
        current_view = view;
        seq_number = seq;
        has_pre_prepare = false;
      })
  reassigned-Succeeds s view seq valid served later =
      let (sound, waits, unset) = reset_and_free-IsSound s.collector valid.sound in
      record {
        sound = sound;
        tracked =
            subst
              (λ b. TrackedOn e b (reset_and_free s.collector) (keep (is_now view seq) s.flying))
              (sym waits)
              (keep_none (is_past s.current_view s.seq_number) (is_now view seq) s.flying
                (λ x past. (past_moved s.current_view s.seq_number view seq x later past).1)
                valid.past);
        placed = inl unset;
        served = served;
        past =
            every_weaker (is_past s.current_view s.seq_number) (is_past view seq) s.flying
              (λ x past. (past_moved s.current_view s.seq_number view seq x later past).0)
              valid.past;
        formed = valid.formed;
        known = λ h. unset;
      }

  pub left_over :
      (s : System Part Full Share Sig) (x : InFlight Share Sig) (rest : List (InFlight Share Sig))
      → IsValid e s
      → Picked x rest s.flying
      → IsValid e (without e s rest)
  left_over s x rest valid picked = record {
    sound = valid.sound;
    tracked = elim (Bool-cases (is_now s.current_view s.seq_number x)) [
      | inl now ↦
          let (busy, awaited, nothing) =
            tracked_picked e s.collector.processing_signatures_in_the_background s.collector
              (is_now s.current_view s.seq_number) picked now valid.tracked in
          let (set, free, expected) = the_expected e true s.collector x awaited in
          subst (λ b. TrackedOn e b s.collector (keep (is_now s.current_view s.seq_number) rest))
            (sym busy) (free, inl nothing)
      | inr other ↦
          subst (IsTracked e s.collector)
            (picked_other (is_now s.current_view s.seq_number) picked other) valid.tracked
    ];
    placed = valid.placed;
    served = valid.served;
    past = (picked_every (is_past s.current_view s.seq_number) picked valid.past).1;
    formed = (picked_every is_formed picked valid.formed).1;
    known = valid.known;
  }

  pub relevant_now :
      (s : System Part Full Share Sig) (m : InternalMessage Sig) (c a : Bool)
      → is_relevant e m c a s ≡ true
      → is_now {Share = Share} s.current_view s.seq_number (reported m) ≡ true
  relevant_now s m c a h =
      let number : ℕ × ℕ = number_of {Share = Share} (reported m) in
      let (most, hs) =
        and_true (not c && a && s.current_view == number.0) (s.seq_number == number.1) h in
      both_true (and_true (not c && a) (s.current_view == number.0) most).1 hs

  deliver-Succeeds :
      Relies e
      → (s : System Part Full Share Sig) (x : InFlight Share Sig) (rest : List (InFlight Share Sig))
        (is_collecting view_is_active has_full_proof : Bool)
      → IsValid e s
      → Picked x rest s.flying
      → Succeeds e (deliver e (x, rest) is_collecting view_is_active has_full_proof s)
  unfolding deliver
  deliver-Succeeds relies s (queued job) rest c a p valid picked = (s, refl, valid)
  deliver-Succeeds relies s (reported m) rest c a p valid picked =
      let left = left_over s (reported m) rest valid picked in
      elim (Bool-cases (is_relevant e m c a s)) [
        | inr dropped ↦ (without e s rest, if_false (is_relevant e m c a s) _ _ dropped, left)
        | inl relevant ↦
            let now = relevant_now s m c a relevant in
            let (busy, awaited, nothing) =
              tracked_picked e s.collector.processing_signatures_in_the_background s.collector
                (is_now s.current_view s.seq_number) picked now valid.tracked in
            let (s', ran, valid') =
              on_result-Succeeds e relies (without e s rest) m p valid.sound
                (subst (λ b. TrackedOn e b s.collector (reported m ∷ [])) (sym busy) awaited)
                nothing valid.placed valid.served left.past left.formed valid.known in
            (s', if_true (is_relevant e m c a s) _ _ relevant ∙ ran, valid')
      ]

  pub picked_step :
      (s : System Part Full Share Sig) (o : Option (InFlight Share Sig × List (InFlight Share Sig)))
      (f : InFlight Share Sig × List (InFlight Share Sig) → Option (System Part Full Share Sig))
      → IsValid e s
      → ((x : InFlight Share Sig) (rest : List (InFlight Share Sig))
          → o ≡ some (x, rest)
          → Succeeds e (f (x, rest)))
      → Succeeds e (elim o [ none ↦ some s | some picked ↦ f picked ])
  picked_step s none f valid h = (s, refl, valid)
  picked_step s (some (x, rest)) f valid h = h x rest refl

  -- With parameters as Relies has them, and a place that is reused only for a later view or a
  -- higher sequence number of the same view, each step of a valid system succeeds: no Assert of
  -- the collector, of a job or of a result's handler fails, that the number is prepared included,
  -- whether a result is current, stale or dropped. The system after it is valid.
  pub step-IsValid :
      Relies e
      → (s : System Part Full Share Sig) (action : Action Part Full) → IsValid e s
      → Allowed e action s
      → (s' : System Part Full Share Sig) × (step e action s ≡ some s') × IsValid e s'
  unfolding step
  step-IsValid relies s (partial_arrives msg r) valid allowed =
      added e s _ valid
        (add_msg_with_partial_signature-Adds e relies msg r s.collector _ valid.sound valid.tracked)
  step-IsValid relies s (combined_arrives msg) valid allowed =
      added e s _ valid
        (add_msg_with_combined_signature-Adds e relies msg s.collector _ valid.sound valid.tracked)
  step-IsValid relies s (pre_prepare_arrives digest) valid allowed =
      elim (Bool-cases s.has_pre_prepare) [
        | inl there ↦ (s, if_true s.has_pre_prepare _ _ there, valid)
        | inr first ↦
            let (s', ran, valid') =
              sent e (record s { has_pre_prepare = true }) _ s.current_view s.seq_number
                (set_expected-Sends e relies s.seq_number s.current_view digest s.collector _
                  valid.sound valid.tracked (λ same. absurd (omega (arith, same, valid.served)))
                  (valid.known first))
                (inr (refl, refl)) valid.served valid.past valid.formed (λ h. absurd (cc h)) in
            (s', if_false s.has_pre_prepare _ _ first ∙ ran, valid')
      ]
  step-IsValid relies s (job_runs i) valid allowed =
      picked_step s (pick i s.flying) (λ picked. run_job e picked s) valid
        (λ x rest found. run_job-Succeeds e s x rest valid (pick-Picked i s.flying x rest found))
  step-IsValid relies s (result_arrives i c a p) valid allowed =
      picked_step s (pick i s.flying) (λ picked. deliver e picked c a p s) valid
        (λ x rest found.
          deliver-Succeeds relies s x rest c a p valid (pick-Picked i s.flying x rest found))
  step-IsValid relies s (reassigned view seq) valid (served, later) =
      (_, refl, reassigned-Succeeds s view seq valid served later)

  started-IsValid : (view seq : ℕ) → 0 < seq → IsValid e (started e view seq)
  unfolding created
  started-IsValid view seq served = record {
    sound = record {
      counted = record { ids = refl; present = refl; unknowns = refl };
      required = inl refl;
      verified = λ m found. absurd (cc found);
      idle = λ unset. (refl, refl);
    };
    tracked = refl;
    placed = inl refl;
    served = served;
    past = refl;
    formed = refl;
    known = λ h. refl;
  }

  pub run_invariant : Relies e → {s : System Part Full Share Sig} → Reachable e s → IsValid e s
  run_invariant relies (begins view seq served) = started-IsValid view seq served
  run_invariant relies (goes_on {s = s} {s' = s'} action reached allowed ran) =
      let (s2, ran', valid) = step-IsValid relies s action (run_invariant relies reached) allowed in
      subst (IsValid e) (cc (ran, ran')) valid

  -- However messages, jobs and results interleave, and across every reuse of the collector for a
  -- later view or sequence number: the combined message that a collector holds carries a signature
  -- that verifies under the digest that was set for its place, and it is held for the place's own
  -- view and sequence number.
  pub reachable_combined_verifies :
      Relies e
      → (s : System Part Full Share Sig) (m : Full) → Reachable e s
      → s.collector.combined_valid_signature_msg ≡ some m
      → (e.threshold_verifier.verify s.collector.expected_digest (e.signature_of m) ≡ true)
        × (s.collector.expected_seq_number ≡ s.seq_number)
        × (s.collector.expected_view ≡ s.current_view)
  reachable_combined_verifies relies s m reached held =
      let valid = run_invariant relies reached in
      let (verifies, waits) = valid.sound.verified m held in
      elim valid.placed [
        | inl unset ↦ absurd (cc (held, (valid.sound.idle unset).1))
        | inr (seq, view) ↦ (verifies, seq, view)
      ]
