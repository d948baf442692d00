-- ===== src/Collector/Invariant.antt =====
-- What holds of a collector between operations, and that starting a job keeps it.
use concord_rcanopus.Base.{
  ℕ, zero, suc, ◌+◌, ◌%◌, ◌^◌, ◌≤◌, ◌<◌, ◌≡◌, ◌≢◌, ◌⊎◌, inl, inr, refl, sym, ap, ◌∙◌, Bool, true,
  false, Option, none, some, List, [], ◌∷◌, ◌++◌, map, arith, leb, leb→le, ◌==◌, eq→==,
  if◌then◌else◌, length, Bool-cases, if_true, if_false, ne→==, ◌>>=◌, ◌>>◌, assert,
}
use concord_rcanopus.Collector.{
  RepInfo, Infos, External, Collector, Job, signatures_processing, combined_sig_verification,
  combined_sig_failed, combined_sig_succeeded, verify_combined_sig_result, gather, send_job,
}
use concord_rcanopus.Collector.Entries.{
  count, no_repeats, is_unknown, is_usable, is_absent, is_hidden, map_hides_none,
}
use concord_rcanopus.Collector.Shares.{all_pass, ids_of, gather_lem}
use concord_rcanopus.Collector.Marking.{IsCounted}
use concord_rcanopus.Collector.System.{InFlight, queued, reported}

-- What the replica relies on: a quorum is not empty, a pass over the map meets each entry once, and
-- the combined message carries the signature it was made of.
pub record Relies {Part Full Share Sig Acc : Type 0} (e : External Part Full Share Sig Acc)
    : Type 0 where
  pub required : 0 < e.number_of_required_signatures
  pub visits :
      (p : ℕ × RepInfo Part → Bool) (infos : Infos Part) → count p (e.pass infos) ≡ count p infos
  pub carries :
      (seq view : ℕ) (sig : Sig)
      → e.signature_of (e.create_combined_signature_msg seq view sig) ≡ sig

module _ {Part Full Share Sig Acc : Type 0} (e : External Part Full Share Sig Acc) where
  pub record IsSound (k : Collector Part Full) : Type 0 where
    pub counted : IsCounted k
    pub required :
        (k.num_of_required_sigs ≡ 0) ⊎ (k.num_of_required_sigs ≡ e.number_of_required_signatures)
    pub verified :
        (m : Full)
        → k.combined_valid_signature_msg ≡ some m
        → (e.threshold_verifier.verify k.expected_digest (e.signature_of m) ≡ true)
          × (k.processing_signatures_in_the_background ≡ false)
    pub idle :
        k.expected_seq_number ≡ 0
        → (k.processing_signatures_in_the_background ≡ false)
          × (k.combined_valid_signature_msg ≡ none)

  -- A job or result in flight is one that the collector can take back.
  abbrev pub IsAwaited : Collector Part Full → InFlight Share Sig → Type 0
  IsAwaited k (queued (signatures_processing seq view digest required items)) =
      (k.expected_seq_number ≡ seq)
      × (k.expected_view ≡ view)
      × (k.expected_digest ≡ digest)
      × (length items ≡ required)
      × (all_pass (is_unknown k.replicas_info) (ids_of items) ≡ true)
  IsAwaited k (queued (combined_sig_verification seq view digest sig)) =
      (k.expected_seq_number ≡ seq)
      × (k.expected_view ≡ view)
      × (k.expected_digest ≡ digest)
      × (m : Full) × (k.candidate_combined_signature_msg ≡ some m)
      × (sig ≡ e.signature_of m)
  IsAwaited k (reported (combined_sig_failed seq view bad)) =
      (k.expected_seq_number ≡ seq)
      × (k.expected_view ≡ view)
      × (all_pass (is_unknown k.replicas_info) bad ≡ true)
      × (no_repeats bad ≡ true)
  IsAwaited k (reported (combined_sig_succeeded seq view sig)) =
      (k.expected_seq_number ≡ seq)
      × (k.expected_view ≡ view)
      × (e.threshold_verifier.verify k.expected_digest sig ≡ true)
  IsAwaited k (reported (verify_combined_sig_result seq view is_valid)) =
      (k.expected_seq_number ≡ seq)
      × (k.expected_view ≡ view)
      × (m : Full) × (k.candidate_combined_signature_msg ≡ some m)
      × (is_valid ≡ e.threshold_verifier.verify k.expected_digest (e.signature_of m))

  -- While the flag is set nothing else than one awaited job or result is in flight, which may have
  -- been dropped; while it is not set nothing is.
  abbrev pub TrackedOn : Bool → Collector Part Full → List (InFlight Share Sig) → Type 0
  TrackedOn true k now =
      (k.combined_valid_signature_msg ≡ none)
      × ((now ≡ []) ⊎ ((x : InFlight Share Sig) × (now ≡ x ∷ []) × IsAwaited k x))
  TrackedOn false k now = now ≡ []

  abbrev pub IsTracked : Collector Part Full → List (InFlight Share Sig) → Type 0
  IsTracked k now = TrackedOn k.processing_signatures_in_the_background k now

  -- An operation succeeds, and what it leaves is sound and tracked, with its expected numbers kept.
  abbrev pub Sends :
      Option (Collector Part Full × List (Job Share Sig))
      → ℕ × ℕ
      → List (InFlight Share Sig)
      → Type 0
  Sends result numbers now =
      (k' : Collector Part Full) × (jobs : List (Job Share Sig)) × (result ≡ some (k', jobs))
      × IsSound k'
      × IsTracked k' (map queued jobs ++ now)
      × ((k'.expected_view, k'.expected_seq_number) ≡ numbers)

  pub kept_required :
      Relies e
      → (n : ℕ) → (n ≡ 0) ⊎ (n ≡ e.number_of_required_signatures)
      → (if n == 0 then e.number_of_required_signatures else n) ≡ e.number_of_required_signatures
  kept_required relies n (inl same) = if_true (n == 0) _ _ (eq→== n 0 same)
  kept_required relies zero (inr same) = refl
  kept_required relies (suc n) (inr same) =
      if_false (suc n == 0) _ _ (ne→== (suc n) 0 (omega arith)) ∙ same

  enough : (r n c : ℕ) → r ≤ n → n ≡ c % 2 ^ 16 → r ≤ 0 + c
  enough r n c h same = omega arith

  abbrev with_job :
      Collector Part Full → ℕ → List (ℕ × Share) → Collector Part Full × List (Job Share Sig)
  with_job k r items = (
    k,
    signatures_processing k.expected_seq_number k.expected_view k.expected_digest r items ∷ [],
  )

  gathers :
      (items : List (ℕ × Share)) (r : ℕ) (o : Option (List (ℕ × Share))) (k : Collector Part Full)
      → o ≡ some items
      → length items ≡ r
      → (do found ← o; assert (length found == r); some (with_job k r found))
        ≡ some (with_job k r items)
  gathers items r o k ran size = rw (ran, eq→== (length items) r size) refl

  -- With no job in progress and no combined message, a job is started when there is one to start.
  pub send_job-Sends :
      Relies e
      → (k : Collector Part Full) (candidate : Option Full)
      → IsSound (record k {
        processing_signatures_in_the_background = false;
        combined_valid_signature_msg = none;
        candidate_combined_signature_msg = candidate;
      })
      → k.num_of_required_sigs ≡ e.number_of_required_signatures
      → k.expected_seq_number ≢ 0
      → Sends
          (send_job e (record k {
            processing_signatures_in_the_background = false;
            combined_valid_signature_msg = none;
            candidate_combined_signature_msg = candidate;
          }))
          (k.expected_view, k.expected_seq_number)
          []
  unfolding send_job
  send_job-Sends relies k (some full) sound required expected = (
    record k {
      processing_signatures_in_the_background = true;
      combined_valid_signature_msg = none;
      candidate_combined_signature_msg = some full;
    },
    _,
    refl,
    record {
      counted = record {
        ids = sound.counted.ids;
        present = sound.counted.present;
        unknowns = sound.counted.unknowns;
      };
      required = inr required;
      verified = λ m found. absurd (cc found);
      idle = λ same. absurd (expected same);
    },
    (refl, inr (_, refl, (refl, refl, refl, full, refl, refl))),
    refl,
  )
  send_job-Sends relies k none sound required expected =
      elim (Bool-cases (leb k.num_of_required_sigs k.number_of_unknown_signatures)) [
        | inr few ↦ (
          record k {
            processing_signatures_in_the_background = false;
            combined_valid_signature_msg = none;
            candidate_combined_signature_msg = none;
          },
          [],
          if_false (leb k.num_of_required_sigs k.number_of_unknown_signatures) _ _ few,
          sound,
          refl,
          refl,
        )
        | inl many ↦
            let infos = e.pass k.replicas_info in
            let (items, ran, size, pass) =
              gather_lem e (is_unknown k.replicas_info) k.num_of_required_sigs 0 infos
                (relies.visits is_absent k.replicas_info ∙ sound.counted.present)
                (relies.visits (is_hidden k.replicas_info) k.replicas_info
                  ∙ map_hides_none k.replicas_info sound.counted.ids)
                (omega (arith, relies.required, required))
                (enough k.num_of_required_sigs k.number_of_unknown_signatures
                  (count is_usable infos)
                  (leb→le k.num_of_required_sigs k.number_of_unknown_signatures many)
                  (sound.counted.unknowns
                    ∙ ap (λ c. c % 2 ^ 16) (sym (relies.visits is_usable k.replicas_info)))) in
            let sent = record k {
              processing_signatures_in_the_background = true;
              combined_valid_signature_msg = none;
              candidate_combined_signature_msg = none;
            } in
            (
              sent,
              _,
              if_true (leb k.num_of_required_sigs k.number_of_unknown_signatures) _ _ many
                  ∙ gathers items k.num_of_required_sigs (gather e k.num_of_required_sigs 0 infos)
                      sent ran (omega (arith, size)),
              record {
                counted = record {
                  ids = sound.counted.ids;
                  present = sound.counted.present;
                  unknowns = sound.counted.unknowns;
                };
                required = inr required;
                verified = λ m found. absurd (cc found);
                idle = λ same. absurd (expected same);
              },
              (refl, inr (_, refl, (refl, refl, refl, (omega (arith, size)), pass))),
              refl,
            )
      ]
