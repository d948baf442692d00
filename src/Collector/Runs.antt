-- ===== src/Collector/Runs.antt =====
-- Runs of the collector with its jobs and results in any order: no Assert fails, and a combined
-- message that the collector holds carries a valid signature of the expected digest.
use concord_rcanopus.Base.{
  ℕ, ◌<◌, ◌≡◌, ◌⊎◌, inl, inr, refl, sym, ap, ◌∙◌, Bool, true, false, not, none, assert_inv,
  some_inj, ◌&&◌, ◌||◌, ltb, leb, Option, some, List, [], ◌∷◌, ◌++◌, map, ◌==◌, Bool-cases, if_true,
  if_false, ◌>>=◌, ◌>>◌, assert,
}
use mathlib.Core.Path.{subst}
use concord_rcanopus.Collector.{
  External, Collector, Job, InternalMessage, combined_sig_failed, combined_sig_succeeded,
  verify_combined_sig_result, is_complete, is_none,
}
use concord_rcanopus.Collector.Completion.{execute, is_awaited, on_combined_sig_verification}
use concord_rcanopus.Collector.Shares.{both_true}
use concord_rcanopus.Collector.System.{
  InFlight, queued, reported, System, is_prepared, absorb, on_result, run_job,
}
use concord_rcanopus.Collector.Invariant.{Relies, IsSound, TrackedOn, IsTracked, Sends}
use concord_rcanopus.Collector.Adding.{Adds}
use concord_rcanopus.Collector.Results.{
  on_bad_signatures-Sends, on_combined_signature-IsSound, on_combined_sig_verification-Sends,
  idle_now, the_expected,
}
use concord_rcanopus.Collector.Picking.{
  keep, every, keep-append, every-append, every_weaker, Picked, picked_every, picked_other,
}
use concord_rcanopus.Collector.Flight.{
  is_now, is_past, is_formed, now_past, sent_now, tracked_picked, execute_lem,
}

module _ {Part Full Share Sig Acc : Type 0} (e : External Part Full Share Sig Acc) where
  abbrev pub now_of : System Part Full Share Sig → List (InFlight Share Sig)
  now_of s = keep (is_now s.current_view s.seq_number) s.flying

  -- The collector is sound, what is in flight with the place's numbers is what it awaits, and all
  -- else in flight is of earlier numbers.
  pub record IsValid (s : System Part Full Share Sig) : Type 0 where
    pub sound : IsSound e s.collector
    pub tracked : IsTracked e s.collector (now_of s)
    pub placed :
        (s.collector.expected_seq_number ≡ 0)
        ⊎ ((s.collector.expected_seq_number ≡ s.seq_number)
            × (s.collector.expected_view ≡ s.current_view))
    pub served : 0 < s.seq_number
    pub past : every (is_past s.current_view s.seq_number) s.flying ≡ true
    pub formed : every is_formed s.flying ≡ true
    pub known : s.has_pre_prepare ≡ false → s.collector.expected_seq_number ≡ 0

  -- An operation's result: no Assert fails, and the system is valid.
  abbrev pub Succeeds : Option (System Part Full Share Sig) → Type 0
  Succeeds result = (s' : System Part Full Share Sig) × (result ≡ some s') × IsValid s'

  abbrev pub Placed : System Part Full Share Sig → ℕ → ℕ → Type 0
  Placed s view seq = (seq ≡ 0) ⊎ ((seq ≡ s.seq_number) × (view ≡ s.current_view))

  -- Without a pre-prepare message nothing is expected.
  abbrev pub Known : System Part Full Share Sig → ℕ → Type 0
  Known s seq = s.has_pre_prepare ≡ false → seq ≡ 0

  -- The jobs that a sound collector starts have the place's numbers.
  sent_numbers :
      (s : System Part Full Share Sig) (k : Collector Part Full)
      (xs now : List (InFlight Share Sig))
      → IsSound e k
      → IsTracked e k (xs ++ now)
      → Placed s k.expected_view k.expected_seq_number
      → (every (is_now s.current_view s.seq_number) xs ≡ true) × (every is_formed xs ≡ true)
  sent_numbers s k [] now sound tracked placed = (refl, refl)
  sent_numbers s k (x ∷ xs) now sound tracked (inl unset) =
      absurd
        (cc (idle_now e k.processing_signatures_in_the_background k _ tracked (sound.idle unset).0))
  sent_numbers s k (x ∷ xs) now sound tracked (inr (hs, hv)) =
      let (number, formed) =
        sent_now e k.processing_signatures_in_the_background k (x ∷ xs) now tracked in
      (
        subst (λ v. every (is_now v s.seq_number) (x ∷ xs) ≡ true) hv
            (subst (λ n. every (is_now k.expected_view n) (x ∷ xs) ≡ true) hs number),
        formed,
      )

  absorbed :
      (s : System Part Full Share Sig) (k : Collector Part Full) (jobs : List (Job Share Sig))
      → IsSound e k
      → IsTracked e k (map queued jobs ++ now_of s)
      → Placed s k.expected_view k.expected_seq_number
      → 0 < s.seq_number
      → every (is_past s.current_view s.seq_number) s.flying ≡ true
      → every is_formed s.flying ≡ true
      → Known s k.expected_seq_number
      → IsValid (absorb e (k, jobs) s)
  unfolding absorb
  absorbed s k jobs sound tracked placed served past formed known =
      let (number, formed') = sent_numbers s k (map queued jobs) (now_of s) sound tracked placed in
      record {
        sound = sound;
        tracked =
            subst (IsTracked e k)
              (sym (
                keep-append (is_now s.current_view s.seq_number) (map queued jobs) s.flying number))
              tracked;
        placed = placed;
        served = served;
        past =
            every-append (is_past s.current_view s.seq_number) (map queued jobs) s.flying
              (every_weaker (is_now s.current_view s.seq_number) _ (map queued jobs)
                (now_past s.current_view s.seq_number) number)
              past;
        formed = every-append is_formed (map queued jobs) s.flying formed' formed;
        known = known;
      }

  pub bound :
      {A : Type 0} (o : Option A) (a : A) (f : A → System Part Full Share Sig)
      → o ≡ some a
      → (do x ← o; some (f x)) ≡ some (f a)
  bound o a f same = rw same refl

  pub added :
      (s : System Part Full Share Sig)
      (o : Option (Bool × (Collector Part Full × List (Job Share Sig))))
      → IsValid s
      → Adds e o (s.collector.expected_view, s.collector.expected_seq_number) (now_of s)
      → Succeeds (do x ← o; some (absorb e x.1 s))
  added s o valid (taken, k', jobs, ran, sound, tracked, numbers) = (
    absorb e (k', jobs) s,
    bound o (taken, (k', jobs)) (λ x. absorb e x.1 s) ran,
    absorbed s k' jobs sound tracked
        (subst (λ (z : ℕ × ℕ). Placed s z.0 z.1) (sym numbers) valid.placed) valid.served valid.past
        valid.formed (subst (λ (z : ℕ × ℕ). Known s z.1) (sym numbers) valid.known),
  )

  pub sent :
      (s : System Part Full Share Sig) (o : Option (Collector Part Full × List (Job Share Sig)))
      (view seq : ℕ)
      → Sends e o (view, seq) (now_of s)
      → Placed s view seq
      → 0 < s.seq_number
      → every (is_past s.current_view s.seq_number) s.flying ≡ true
      → every is_formed s.flying ≡ true
      → Known s seq
      → Succeeds (do x ← o; some (absorb e x s))
  sent s o view seq (k', jobs, ran, sound, tracked, numbers) placed served past formed known = (
    absorb e (k', jobs) s,
    bound o (k', jobs) (λ x. absorb e x s) ran,
    absorbed s k' jobs sound tracked (subst (λ (z : ℕ × ℕ). Placed s z.0 z.1) (sym numbers) placed)
        served past formed (subst (λ (z : ℕ × ℕ). Known s z.1) (sym numbers) known),
  )

  -- What is left in flight after one is taken out.
  abbrev pub without :
      System Part Full Share Sig → List (InFlight Share Sig) → System Part Full Share Sig
  without s rest = record s { flying = rest }

  completes :
      (s : System Part Full Share Sig) (has_full_proof : Bool) (o : Option (Collector Part Full))
      (k : Collector Part Full)
      → o ≡ some k
      → is_complete k ≡ true
      → s.has_pre_prepare ≡ true
      → (do
        k' ← o
        assert (is_complete k')
        assert (has_full_proof || is_prepared e (record s { collector = k' }))
        some (record s { collector = k' }))
        ≡ some (record s { collector = k })
  completes s false o k same done pre = rw (same, done, pre) refl
  completes s true o k same done pre = rw (same, done) refl

  -- A collector whose combined signature verifies has its message.
  verified_completes :
      (seq view : ℕ) (k : Collector Part Full) (sent : Collector Part Full × List (Job Share Sig))
      → on_combined_sig_verification e seq view true k ≡ some sent
      → is_complete sent.0 ≡ true
  unfolding on_combined_sig_verification is_complete
  verified_completes seq view k sent ran =
      let (awaited, e1) = assert_inv (is_awaited e seq view k) _ _ ran in
      let (held, e2) = assert_inv (not (is_none k.candidate_combined_signature_msg)) _ _ e1 in
      subst (λ (z : Collector Part Full × List (Job Share Sig)). is_complete z.0 ≡ true)
        (some_inj e2) held

  asserted :
      (b : Bool) (o : Option (System Part Full Share Sig))
      → b ≡ true
      → Succeeds o
      → Succeeds (do assert b; o)
  asserted true o h succeeds = succeeds
  asserted false o h succeeds = absurd (cc h)

  with_asserted :
      (s : System Part Full Share Sig) (is_valid has_full_proof : Bool)
      (o : Option (Collector Part Full × List (Job Share Sig)))
      → s.has_pre_prepare ≡ true
      → ((sent : Collector Part Full × List (Job Share Sig))
          → o ≡ some sent
          → is_valid ≡ true
          → is_complete sent.0 ≡ true)
      → Succeeds (do sent ← o; some (absorb e sent s))
      → Succeeds (do
        sent ← o
        assert (not is_valid || has_full_proof || is_prepared e (absorb e sent s))
        some (absorb e sent s))
  unfolding absorb
  with_asserted s is_valid has_full_proof none pre done (s', ran, valid) = absurd (cc ran)
  with_asserted s false has_full_proof (some sent') pre done succeeds = succeeds
  with_asserted s true true (some sent') pre done succeeds = succeeds
  with_asserted s true false (some sent') pre done succeeds =
      asserted (s.has_pre_prepare && is_complete sent'.0) _ (both_true pre (done sent' refl refl))
        succeeds

  -- A collector that waits expects a number, so the pre-prepare message is there.
  waits-Known :
      (s : System Part Full Share Sig) (x : InFlight Share Sig)
      → IsSound e s.collector
      → IsTracked e s.collector (x ∷ [])
      → Known s s.collector.expected_seq_number
      → s.has_pre_prepare ≡ true
  waits-Known s x sound tracked known = elim (Bool-cases s.has_pre_prepare) [
    | inl pre ↦ pre
    | inr without ↦ absurd (
        cc (
          idle_now e s.collector.processing_signatures_in_the_background s.collector _ tracked
            (sound.idle (known without)).0))
  ]

  pub on_result-Succeeds :
      Relies e
      → (s : System Part Full Share Sig) (m : InternalMessage Sig) (has_full_proof : Bool)
      → IsSound e s.collector
      → IsTracked e s.collector (reported m ∷ [])
      → now_of s ≡ []
      → Placed s s.collector.expected_view s.collector.expected_seq_number
      → 0 < s.seq_number
      → every (is_past s.current_view s.seq_number) s.flying ≡ true
      → every is_formed s.flying ≡ true
      → Known s s.collector.expected_seq_number
      → Succeeds (on_result e m has_full_proof s)
  unfolding on_result is_complete
  on_result-Succeeds relies s (combined_sig_failed seq view bad) p sound tracked nothing placed
        served past formed known =
      sent s _ s.collector.expected_view s.collector.expected_seq_number
        (subst (Sends e _ _) (sym nothing)
          (on_bad_signatures-Sends e relies seq view bad s.collector sound tracked))
        placed served past formed known
  on_result-Succeeds relies s (verify_combined_sig_result seq view is_valid) p sound tracked nothing
        placed served past formed known =
      with_asserted s is_valid p (on_combined_sig_verification e seq view is_valid s.collector)
        (waits-Known s _ sound tracked known)
        (λ sent ran good.
          verified_completes seq view s.collector sent (
            subst (λ b. on_combined_sig_verification e seq view b s.collector ≡ some sent) good
              ran))
        (sent s _ s.collector.expected_view s.collector.expected_seq_number
          (subst (Sends e _ _) (sym nothing) (
            on_combined_sig_verification-Sends e relies seq view is_valid s.collector sound
              tracked))
          placed served past formed known)
  on_result-Succeeds relies s (combined_sig_succeeded seq view sig) p sound tracked nothing placed
        served past formed known =
      let (ran, sound') =
        on_combined_signature-IsSound e relies seq view sig s.collector sound tracked in
      (
        _,
        completes s p _ _ ran refl (waits-Known s _ sound tracked known),
        record {
          sound = sound';
          tracked = nothing;
          placed = placed;
          served = served;
          past = past;
          formed = formed;
          known = known;
        },
      )

  -- A job that runs: what was in flight of it is now its result.
  pub run_job-Succeeds :
      (s : System Part Full Share Sig) (x : InFlight Share Sig) (rest : List (InFlight Share Sig))
      → IsValid s
      → Picked x rest s.flying
      → Succeeds (run_job e (x, rest) s)
  unfolding run_job
  run_job-Succeeds s (reported m) rest valid picked = (s, refl, valid)
  run_job-Succeeds s (queued job) rest valid picked =
      let (formed, formed') = picked_every is_formed picked valid.formed in
      let (past, past') = picked_every (is_past s.current_view s.seq_number) picked valid.past in
      let (m, ran, number, awaits) = execute_lem e job formed in
      let s' = record s { flying = reported m ∷ rest } in
      let is_current = is_now s.current_view s.seq_number in
      let same : is_current (reported m) ≡ is_current (queued job) =
        ap (λ (z : ℕ × ℕ). s.current_view == z.0 && s.seq_number == z.1) number in
      (
        s',
        bound (execute e job) m (λ m'. record s { flying = reported m' ∷ rest }) ran,
        record {
          sound = valid.sound;
          tracked = elim (Bool-cases (is_current (queued job))) [
            | inl now ↦
                let (busy, awaited, nothing) =
                  tracked_picked e s.collector.processing_signatures_in_the_background s.collector
                    is_current picked now valid.tracked in
                let (set, free, expected) = the_expected e true s.collector (queued job) awaited in
                subst (IsTracked e s.collector)
                  (sym (
                    if_true (is_current (reported m)) _ _ (same ∙ now)
                    ∙ ap (λ zs. reported m ∷ zs) nothing))
                  (subst (λ b. TrackedOn e b s.collector (reported m ∷ [])) (sym busy)
                    (free, inr (reported m, refl, awaits s.collector expected)))
            | inr other ↦
                subst (IsTracked e s.collector)
                  (picked_other is_current picked other
                    ∙ sym (if_false (is_current (reported m)) _ _ (same ∙ other)))
                  valid.tracked
          ];
          placed = valid.placed;
          served = valid.served;
          past =
              both_true
                (ap
                    (λ (z : ℕ × ℕ).
                      ltb z.0 s.current_view || (z.0 == s.current_view && leb z.1 s.seq_number))
                    number
                  ∙ past)
                past';
          formed = formed';
          known = valid.known;
        },
      )
