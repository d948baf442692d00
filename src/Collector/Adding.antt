-- ===== src/Collector/Adding.antt =====
-- The messages that a sound collector takes or refuses: both operations succeed, and keep it sound.
use concord_rcanopus.Base.{
  ℕ, suc, ◌+◌, ◌%◌, ◌^◌, ◌≡◌, inl, inr, refl, ap, ◌∙◌, Bool, true, false, not, ◌||◌, Option, none,
  some, List, [], ◌∷◌, ◌++◌, map, arith, unrefuted, Bool-cases, or_false, if_true, if_false, ◌>>=◌,
}
use concord_rcanopus.Collector.{
  unknown, RepInfo, External, Collector, Job, signatures_processing, combined_sig_verification,
  combined_sig_failed, combined_sig_succeeded, verify_combined_sig_result, is_none, has,
  is_complete, add_msg_with_partial_signature, add_msg_with_combined_signature,
}
use concord_rcanopus.Collector.Entries.{is_unknown, is_unknown_other}
use concord_rcanopus.Collector.Shares.{ids_of, pass_weaker, both_true}
use concord_rcanopus.Collector.System.{InFlight, queued, reported}
use concord_rcanopus.Collector.Invariant.{Relies, IsSound, IsAwaited, TrackedOn, IsTracked}
use concord_rcanopus.Collector.Sending.{is_none_lem, try_send_to_bk_thread-Sends}

module _ {Part Full Share Sig Acc : Type 0} (e : External Part Full Share Sig Acc) where
  -- The replica of a new entry was not there, so the shares in flight are other replicas'.
  expected_more :
      (k : Collector Part Full) (n r : ℕ) (info : RepInfo Part) (x : InFlight Share Sig)
      → has r k.replicas_info ≡ false
      → IsAwaited e k x
      → IsAwaited e
          (record k {
            replicas_info = (r, info) ∷ k.replicas_info;
            number_of_unknown_signatures = n;
          })
          x
  expected_more k n r info (queued (signatures_processing seq view digest required items)) fresh
        (hs, hv, hd, size, pass) =
      (
        hs,
        hv,
        hd,
        size,
        pass_weaker (is_unknown k.replicas_info) (is_unknown ((r, info) ∷ k.replicas_info))
            (ids_of items) (λ j. is_unknown_other k.replicas_info j r info fresh) pass,
      )
  expected_more k n r info (queued (combined_sig_verification seq view digest sig)) fresh h = h
  expected_more k n r info (reported (combined_sig_failed seq view bad)) fresh
        (hs, hv, pass, differ) =
      (
        hs,
        hv,
        pass_weaker (is_unknown k.replicas_info) (is_unknown ((r, info) ∷ k.replicas_info)) bad
            (λ j. is_unknown_other k.replicas_info j r info fresh) pass,
        differ,
      )
  expected_more k n r info (reported (combined_sig_succeeded seq view sig)) fresh h = h
  expected_more k n r info (reported (verify_combined_sig_result seq view is_valid)) fresh h = h

  tracked_more :
      (k : Collector Part Full) (n r : ℕ) (info : RepInfo Part) (p : Bool)
      (now : List (InFlight Share Sig))
      → has r k.replicas_info ≡ false
      → TrackedOn e p k now
      → TrackedOn e p
          (record k {
            replicas_info = (r, info) ∷ k.replicas_info;
            number_of_unknown_signatures = n;
          })
          now
  tracked_more k n r info true now fresh (free, inl nothing) = (free, inl nothing)
  tracked_more k n r info true now fresh (free, inr (x, same, awaited)) =
      (free, inr (x, same, expected_more k n r info x fresh awaited))
  tracked_more k n r info false now fresh h = h

  -- A candidate that was not there is not awaited.
  expected_candidate :
      (k : Collector Part Full) (msg : Full) (x : InFlight Share Sig)
      → k.candidate_combined_signature_msg ≡ none
      → IsAwaited e k x
      → IsAwaited e (record k { candidate_combined_signature_msg = some msg }) x
  expected_candidate k msg (queued (signatures_processing seq view digest required items)) absent
        h =
      h
  expected_candidate k msg (queued (combined_sig_verification seq view digest sig)) absent
        (hs, hv, hd, m, found, same) =
      absurd (cc (absent, found))
  expected_candidate k msg (reported (combined_sig_failed seq view bad)) absent h = h
  expected_candidate k msg (reported (combined_sig_succeeded seq view sig)) absent h = h
  expected_candidate k msg (reported (verify_combined_sig_result seq view is_valid)) absent
        (hs, hv, m, found, same) =
      absurd (cc (absent, found))

  tracked_candidate :
      (k : Collector Part Full) (msg : Full) (p : Bool) (now : List (InFlight Share Sig))
      → k.candidate_combined_signature_msg ≡ none
      → TrackedOn e p k now
      → TrackedOn e p (record k { candidate_combined_signature_msg = some msg }) now
  tracked_candidate k msg true now absent (free, inl nothing) = (free, inl nothing)
  tracked_candidate k msg true now absent (free, inr (x, same, awaited)) =
      (free, inr (x, same, expected_candidate k msg x absent awaited))
  tracked_candidate k msg false now absent h = h

  wrap_more : (n c : ℕ) → n ≡ c % 2 ^ 16 → (n + 1) % 2 ^ 16 ≡ suc c % 2 ^ 16
  wrap_more n c same = omega arith

  with_share-IsSound :
      (k : Collector Part Full) (r : ℕ) (msg : Part)
      → IsSound e k
      → has r k.replicas_info ≡ false
      → IsSound e (record k {
        replicas_info =
            (r, record { partial_sig_msg = some msg; state = unknown }) ∷ k.replicas_info;
        number_of_unknown_signatures = (k.number_of_unknown_signatures + 1) % 2 ^ 16;
      })
  with_share-IsSound k r msg sound fresh = record {
    counted = record {
      ids = both_true (ap not fresh) sound.counted.ids;
      present = sound.counted.present;
      unknowns = wrap_more k.number_of_unknown_signatures _ sound.counted.unknowns;
    };
    required = sound.required;
    verified = sound.verified;
    idle = sound.idle;
  }

  -- The result of an operation that takes a message or refuses it.
  abbrev pub Adds :
      Option (Bool × (Collector Part Full × List (Job Share Sig)))
      → ℕ × ℕ
      → List (InFlight Share Sig)
      → Type 0
  Adds result numbers now =
      (taken : Bool) × (k' : Collector Part Full) × (jobs : List (Job Share Sig)) × (result
        ≡ some (taken, (k', jobs)))
      × IsSound e k'
      × IsTracked e k' (map queued jobs ++ now)
      × ((k'.expected_view, k'.expected_seq_number) ≡ numbers)

  abbrev pub accepted_with :
      Collector Part Full × List (Job Share Sig)
      → Bool × (Collector Part Full × List (Job Share Sig))
  accepted_with sent = (true, sent)

  taken_lem :
      (o : Option (Collector Part Full × List (Job Share Sig))) (k' : Collector Part Full)
      (jobs : List (Job Share Sig))
      → o ≡ some (k', jobs)
      → (do sent ← o; some (accepted_with sent)) ≡ some (true, (k', jobs))
  taken_lem o k' jobs same = rw same refl

  pub incomplete :
      (k : Collector Part Full) → is_complete k ≡ false → k.combined_valid_signature_msg ≡ none
  unfolding is_complete
  incomplete k h =
      is_none_lem k.combined_valid_signature_msg
        (unrefuted (is_none k.combined_valid_signature_msg) h)

  pub add_msg_with_partial_signature-Adds :
      Relies e
      → (msg : Part) (r : ℕ) (k : Collector Part Full) (now : List (InFlight Share Sig))
      → IsSound e k
      → IsTracked e k now
      → Adds (add_msg_with_partial_signature e msg r k) (k.expected_view, k.expected_seq_number) now
  unfolding add_msg_with_partial_signature
  add_msg_with_partial_signature-Adds relies msg r k now sound tracked =
      elim (Bool-cases (is_complete k || has r k.replicas_info)) [
        | inl refused ↦ (
          false,
          k,
          [],
          if_true (is_complete k || has r k.replicas_info) _ _ refused,
          sound,
          tracked,
          refl,
        )
        | inr accepted ↦
            let (unfinished, fresh) = or_false (is_complete k) (has r k.replicas_info) accepted in
            let (k', jobs, ran, sound', tracked', numbers) =
              try_send_to_bk_thread-Sends e relies _ now (with_share-IsSound k r msg sound fresh)
                (incomplete k unfinished)
                (tracked_more k _ r _ k.processing_signatures_in_the_background now fresh
                  tracked) in
            (
              true,
              k',
              jobs,
              if_false (is_complete k || has r k.replicas_info) _ _ accepted
                  ∙ taken_lem _ k' jobs ran,
              sound',
              tracked',
              numbers,
            )
      ]

  pub add_msg_with_combined_signature-Adds :
      Relies e
      → (msg : Full) (k : Collector Part Full) (now : List (InFlight Share Sig)) → IsSound e k
      → IsTracked e k now
      → Adds (add_msg_with_combined_signature e msg k) (k.expected_view, k.expected_seq_number) now
  unfolding add_msg_with_combined_signature
  add_msg_with_combined_signature-Adds relies msg k now sound tracked =
      let refuses = is_complete k || not (is_none k.candidate_combined_signature_msg) in
      elim (Bool-cases refuses) [
        | inl refused ↦ (false, k, [], if_true refuses _ _ refused, sound, tracked, refl)
        | inr accepted ↦
            let (unfinished, present) =
              or_false (is_complete k) (not (is_none k.candidate_combined_signature_msg))
                accepted in
            let absent =
              is_none_lem k.candidate_combined_signature_msg
                (unrefuted (is_none k.candidate_combined_signature_msg) present) in
            let (k', jobs, ran, sound', tracked', numbers) =
              try_send_to_bk_thread-Sends e relies
                (record k { candidate_combined_signature_msg = some msg }) now
                (record {
                  counted = record {
                    ids = sound.counted.ids;
                    present = sound.counted.present;
                    unknowns = sound.counted.unknowns;
                  };
                  required = sound.required;
                  verified = sound.verified;
                  idle = sound.idle;
                })
                (incomplete k unfinished)
                (tracked_candidate k msg k.processing_signatures_in_the_background now absent
                  tracked) in
            (
              true,
              k',
              jobs,
              if_false refuses _ _ accepted ∙ taken_lem _ k' jobs ran,
              sound',
              tracked',
              numbers,
            )
      ]
