-- ===== src/Collector/Lost.antt =====
-- A result that is dropped, while state transfer collects, leaves the collector waiting for it.
use concord_rcanopus.Base.{
  ℕ, ◌≡◌, inl, inr, refl, sym, ap, ◌∙◌, Bool, true, false, not, ◌&&◌, ◌||◌, Option, none, some,
  List, [], ◌∷◌, ◌==◌, if◌then◌else◌, Bool-cases, and_true, if_true, if_false, ◌>>=◌, ◌>>◌, assert,
}
use mathlib.Core.Path.{subst}
use concord_rcanopus.Collector.{
  External, Collector, Job, InternalMessage, is_none, has, is_complete, try_send_to_bk_thread,
  add_msg_with_partial_signature, add_msg_with_combined_signature,
}
use concord_rcanopus.Collector.Completion.{execute}
use concord_rcanopus.Collector.System.{
  InFlight, queued, reported, System, Action, partial_arrives, combined_arrives,
  pre_prepare_arrives, job_runs, result_arrives, reassigned, pick, absorb, is_relevant, run_job,
  deliver, step, Allowed, run_actions, Reachable,
}
use concord_rcanopus.Collector.Invariant.{Relies}
use concord_rcanopus.Collector.Adding.{accepted_with}
use concord_rcanopus.Collector.Picking.{
  keep, Picked, pick-Picked, picked_other, picked_some, picked_every,
}
use concord_rcanopus.Collector.Flight.{is_now, is_formed, tracked_picked, execute_lem}
use concord_rcanopus.Collector.Runs.{now_of, IsValid, bound}
use concord_rcanopus.Collector.Safety.{relevant_now, left_over, step-IsValid, run_invariant}

-- An action that leaves the collector at its place.
abbrev pub stays : {Part Full : Type 0} → Action Part Full → Bool
stays (reassigned view seq) = false
stays action = true

abbrev pub all_stay : {Part Full : Type 0} → List (Action Part Full) → Bool
all_stay [] = true
all_stay (action ∷ actions) = stays action && all_stay actions

module _ {Part Full Share Sig Acc : Type 0} (e : External Part Full Share Sig Acc) where
  -- The collector waits, without a combined message, and nothing in flight has its numbers.
  pub record IsLost (s : System Part Full Share Sig) : Type 0 where
    pub waits : s.collector.processing_signatures_in_the_background ≡ true
    pub free : s.collector.combined_valid_signature_msg ≡ none
    pub nothing : now_of e s ≡ []

  abbrev StaysLost : Option (System Part Full Share Sig) → Type 0
  StaysLost result = (s' : System Part Full Share Sig) × (result ≡ some s') × IsLost s'

  abbrev sent_nothing : Collector Part Full → Collector Part Full × List (Job Share Sig)
  sent_nothing k = (k, [])

  abbrev refusal : Collector Part Full → Bool × (Collector Part Full × List (Job Share Sig))
  refusal k = (false, (k, []))

  waiting :
      (busy unset clear : Bool) (k : Collector Part Full)
      (later : Option (Collector Part Full × List (Job Share Sig)))
      → clear ≡ true
      → busy ≡ true
      → (do assert clear; (if busy || unset then some (sent_nothing k) else later))
        ≡ some (sent_nothing k)
  waiting busy unset clear k later hc hb = rw (hc, hb) refl

  -- While the flag is set no job is started.
  try_send_waits :
      (k : Collector Part Full)
      → k.processing_signatures_in_the_background ≡ true
      → k.combined_valid_signature_msg ≡ none
      → try_send_to_bk_thread e k
        ≡ some (
          record k {
            num_of_required_sigs =
                if k.num_of_required_sigs == 0
                then e.number_of_required_signatures
                else k.num_of_required_sigs;
          },
          [],
        )
  unfolding try_send_to_bk_thread
  try_send_waits k waits free =
      waiting k.processing_signatures_in_the_background (k.expected_seq_number == 0)
        (is_none k.combined_valid_signature_msg) _ _ (ap is_none free) waits

  no_jobs :
      (s : System Part Full Share Sig) (k : Collector Part Full)
      → IsLost s
      → k.processing_signatures_in_the_background ≡ true
      → k.combined_valid_signature_msg ≡ none
      → IsLost (absorb e (k, []) s)
  unfolding absorb
  no_jobs s k lost waits free = record { waits = waits; free = free; nothing = lost.nothing }

  refused_or :
      (s : System Part Full Share Sig) (b : Bool) (k : Collector Part Full)
      (o : Option (Collector Part Full × List (Job Share Sig)))
      → IsLost s
      → o ≡ some (k, [])
      → k.processing_signatures_in_the_background ≡ true
      → k.combined_valid_signature_msg ≡ none
      → StaysLost (do
        added ← if b then some (refusal s.collector) else (do sent ← o; some (accepted_with e sent))
        some (absorb e added.1 s))
  refused_or s true k o lost ran waits free =
      (_, refl, no_jobs s s.collector lost lost.waits lost.free)
  refused_or s false k o lost ran waits free = (_, rw ran refl, no_jobs s k lost waits free)

  -- What is in flight is of other numbers, and its results are dropped.
  other :
      (s : System Part Full Share Sig) (x : InFlight Share Sig) (rest : List (InFlight Share Sig))
      → IsLost s
      → Picked x rest s.flying
      → (is_now s.current_view s.seq_number x ≡ false)
        × (keep (is_now s.current_view s.seq_number) rest ≡ [])
  other s x rest lost picked = elim (Bool-cases (is_now s.current_view s.seq_number x)) [
    | inl now ↦ absurd (picked_some (is_now s.current_view s.seq_number) picked now lost.nothing)
    | inr past ↦
        (past, sym (picked_other (is_now s.current_view s.seq_number) picked past) ∙ lost.nothing)
  ]

  run_job-StaysLost :
      (s : System Part Full Share Sig) (x : InFlight Share Sig) (rest : List (InFlight Share Sig))
      → IsValid e s
      → IsLost s
      → Picked x rest s.flying
      → StaysLost (run_job e (x, rest) s)
  unfolding run_job
  run_job-StaysLost s (reported m) rest valid lost picked = (s, refl, lost)
  run_job-StaysLost s (queued job) rest valid lost picked =
      let (m, ran, number, awaits) =
        execute_lem e job (picked_every is_formed picked valid.formed).0 in
      let (past, nothing) = other s (queued job) rest lost picked in
      (
        record s { flying = reported m ∷ rest },
        bound e (execute e job) m (λ m'. record s { flying = reported m' ∷ rest }) ran,
        record {
          waits = lost.waits;
          free = lost.free;
          nothing =
              if_false (is_now {Share = Share} s.current_view s.seq_number (reported m)) _ _
                (ap (λ (z : ℕ × ℕ). s.current_view == z.0 && s.seq_number == z.1) number ∙ past)
              ∙ nothing;
        },
      )

  deliver-StaysLost :
      (s : System Part Full Share Sig) (x : InFlight Share Sig) (rest : List (InFlight Share Sig))
      (c a p : Bool)
      → IsLost s
      → Picked x rest s.flying
      → StaysLost (deliver e (x, rest) c a p s)
  unfolding deliver
  deliver-StaysLost s (queued job) rest c a p lost picked = (s, refl, lost)
  deliver-StaysLost s (reported m) rest c a p lost picked =
      let (past, nothing) = other s (reported m) rest lost picked in
      elim (Bool-cases (is_relevant e m c a s)) [
        | inl relevant ↦ absurd (cc (past, relevant_now e s m c a relevant))
        | inr dropped ↦ (
          record s { flying = rest },
          if_false (is_relevant e m c a s) _ _ dropped,
          record { waits = lost.waits; free = lost.free; nothing = nothing },
        )
      ]

  picked_lost :
      (s : System Part Full Share Sig) (o : Option (InFlight Share Sig × List (InFlight Share Sig)))
      (f : InFlight Share Sig × List (InFlight Share Sig) → Option (System Part Full Share Sig))
      → IsLost s
      → ((x : InFlight Share Sig) (rest : List (InFlight Share Sig))
          → o ≡ some (x, rest)
          → StaysLost (f (x, rest)))
      → StaysLost (elim o [ none ↦ some s | some picked ↦ f picked ])
  picked_lost s none f lost h = (s, refl, lost)
  picked_lost s (some (x, rest)) f lost h = h x rest refl

  blocks :
      (s : System Part Full Share Sig) (action : Action Part Full)
      → IsValid e s
      → IsLost s
      → Allowed e action s
      → stays action ≡ true
      → StaysLost (step e action s)
  unfolding step add_msg_with_partial_signature add_msg_with_combined_signature
  blocks s (partial_arrives msg r) valid lost allowed kept =
      refused_or s (is_complete s.collector || has r s.collector.replicas_info) _ _ lost
        (try_send_waits _ lost.waits lost.free) lost.waits lost.free
  blocks s (combined_arrives msg) valid lost allowed kept =
      refused_or s
        (is_complete s.collector || not (is_none s.collector.candidate_combined_signature_msg)) _ _
        lost (try_send_waits _ lost.waits lost.free) lost.waits lost.free
  blocks s (pre_prepare_arrives digest) valid lost allowed kept =
      elim (Bool-cases s.has_pre_prepare) [
        | inl there ↦ (s, if_true s.has_pre_prepare _ _ there, lost)
        | inr without ↦ absurd (cc ((valid.sound.idle (valid.known without)).0, lost.waits))
      ]
  blocks s (job_runs i) valid lost allowed kept =
      picked_lost s (pick i s.flying) (λ picked. run_job e picked s) lost
        (λ x rest found.
          run_job-StaysLost s x rest valid lost (pick-Picked i s.flying x rest found))
  blocks s (result_arrives i c a p) valid lost allowed kept =
      picked_lost s (pick i s.flying) (λ picked. deliver e picked c a p s) lost
        (λ x rest found.
          deliver-StaysLost s x rest c a p lost (pick-Picked i s.flying x rest found))
  blocks s (reassigned view seq) valid lost allowed kept = absurd (cc kept)

  allows :
      (action : Action Part Full) (s : System Part Full Share Sig)
      → stays action ≡ true
      → Allowed e action s
  allows (partial_arrives msg r) s kept = tt
  allows (combined_arrives msg) s kept = tt
  allows (pre_prepare_arrives digest) s kept = tt
  allows (job_runs i) s kept = tt
  allows (result_arrives i c a p) s kept = tt
  allows (reassigned view seq) s kept = absurd (cc kept)

  run_actions-StaysLost :
      Relies e
      → (actions : List (Action Part Full)) (s : System Part Full Share Sig) → IsValid e s
      → IsLost s
      → all_stay actions ≡ true
      → StaysLost (run_actions e actions s)
  unfolding run_actions
  run_actions-StaysLost relies [] s valid lost kept = (s, refl, lost)
  run_actions-StaysLost relies (action ∷ actions) s valid lost kept =
      let (here, later) = and_true (stays action) (all_stay actions) kept in
      let allowed = allows action s here in
      let (s1, ran, lost1) = blocks s action valid lost allowed here in
      let (s2, ran', valid2) = step-IsValid e relies s action valid allowed in
      let (s', runs, lost') =
        run_actions-StaysLost relies actions s1 (subst (IsValid e) (cc (ran, ran')) valid2) lost1
          later in
      (s', rw ran runs, lost')

  -- The drop itself: the result of the place's own view and number was the one awaited.
  dropped-IsLost :
      (s : System Part Full Share Sig) (m : InternalMessage Sig) (rest : List (InFlight Share Sig))
      → IsValid e s
      → Picked (reported m) rest s.flying
      → is_now {Share = Share} s.current_view s.seq_number (reported m) ≡ true
      → IsLost (record s { flying = rest })
  dropped-IsLost s m rest valid picked now =
      let (busy, awaited, nothing) =
        tracked_picked e s.collector.processing_signatures_in_the_background s.collector
          (is_now s.current_view s.seq_number) picked now valid.tracked in
      record { waits = busy; free = awaited.0; nothing = nothing }

  -- In every run, with parameters as Relies has them, when a result of the place's own view and
  -- number arrives while state transfer is collecting, it is dropped for good: whatever messages,
  -- jobs and results follow, the collector keeps waiting for it and has no combined message, a
  -- combined signature of another replica included, as long as its place is not given to a later
  -- view or sequence number.
  pub dropped_result_blocks :
      Relies e
      → (s : System Part Full Share Sig) (i : ℕ) (m : InternalMessage Sig)
        (rest : List (InFlight Share Sig)) (view_is_active has_full_proof : Bool)
        (actions : List (Action Part Full))
      → Reachable e s
      → pick i s.flying ≡ some (reported m, rest)
      → is_now {Share = Share} s.current_view s.seq_number (reported m) ≡ true
      → all_stay actions ≡ true
      → (s' : System Part Full Share Sig) × (run_actions e
            (result_arrives i true view_is_active has_full_proof ∷ actions)
            s
          ≡ some s')
        × (s'.collector.processing_signatures_in_the_background ≡ true)
        × (s'.collector.combined_valid_signature_msg ≡ none)
  unfolding run_actions step deliver
  dropped_result_blocks relies s i m rest a p actions reached found now kept =
      let valid = run_invariant e relies reached in
      let picked = pick-Picked i s.flying (reported m) rest found in
      let (s', runs, lost) =
        run_actions-StaysLost relies actions (record s { flying = rest })
          (left_over e s (reported m) rest valid picked) (dropped-IsLost s m rest valid picked now)
          kept in
      (
        s',
        ap
              (λ o.
                elim o [ none ↦ some s | some z ↦ deliver e z true a p s ]
                >>= run_actions e actions)
              found
            ∙ runs,
        lost.waits,
        lost.free,
      )
