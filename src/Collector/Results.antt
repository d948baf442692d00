-- ===== src/Collector/Results.antt =====
-- The digest that makes a sound collector ready, and the results that it awaits: no Assert of these
-- operations fails, and a combined message is set only with a valid signature.
use concord_rcanopus.Base.{
  ℕ, ◌≡◌, ◌≢◌, inl, inr, refl, sym, ap, ◌∙◌, Bool, true, false, not, ◌&&◌, none, some, List, [],
  ◌∷◌, ◌==◌, eq→==, ne→==, Bool-cases, if_true, if_false,
}
use mathlib.Core.Path.{subst}
use concord_rcanopus.Collector.{
  External, Collector, combined_sig_failed, combined_sig_succeeded, verify_combined_sig_result,
  is_none, mark_bad, try_send_to_bk_thread, set_expected,
}
use concord_rcanopus.Collector.Completion.{
  on_bad_signatures, on_combined_signature, on_combined_sig_verification,
}
use concord_rcanopus.Collector.Marking.{IsCounted, mark_bad-IsCounted, mark_bad_rest}
use concord_rcanopus.Collector.System.{InFlight, reported}
use concord_rcanopus.Collector.Invariant.{Relies, IsSound, IsAwaited, TrackedOn, IsTracked, Sends}
use concord_rcanopus.Collector.Sending.{
  asserted, asserted_once, four_true, try_send_to_bk_thread-Sends,
}

module _ {Part Full Share Sig Acc : Type 0} (e : External Part Full Share Sig Acc) where
  pub idle_now :
      (p : Bool) (k : Collector Part Full) (now : List (InFlight Share Sig))
      → TrackedOn e p k now
      → p ≡ false
      → now ≡ []
  idle_now true k now tracked h = absurd (cc h)
  idle_now false k now tracked h = tracked

  pub set_expected-Sends :
      Relies e
      → (seq view digest : ℕ) (k : Collector Part Full) (now : List (InFlight Share Sig))
      → IsSound e k
      → IsTracked e k now
      → seq ≢ 0
      → k.expected_seq_number ≡ 0
      → Sends e (set_expected e seq view digest k) (view, seq) now
  unfolding set_expected
  set_expected-Sends relies seq view digest k now sound tracked given unset =
      let (waits, free) = sound.idle unset in
      let nothing = idle_now k.processing_signatures_in_the_background k now tracked waits in
      let k1 = record k {
        expected_seq_number = seq;
        expected_view = view;
        expected_digest = digest;
      } in
      let (k', jobs, ran, sound', tracked', numbers) =
        try_send_to_bk_thread-Sends e relies k1 []
          (record {
            counted = record {
              ids = sound.counted.ids;
              present = sound.counted.present;
              unknowns = sound.counted.unknowns;
            };
            required = sound.required;
            verified = λ m found. absurd (cc (free, found));
            idle = λ same. absurd (given same);
          })
          free (subst (λ p. TrackedOn e p k1 []) (sym waits) refl) in
      subst (Sends e _ (view, seq)) (sym nothing) (
        k',
        jobs,
        asserted (not (seq == 0)) (k.expected_seq_number == 0)
              (not k.processing_signatures_in_the_background) (try_send_to_bk_thread e k1)
              (ap not (ne→== seq 0 given)) (eq→== k.expected_seq_number 0 unset) (ap not waits)
            ∙ ran,
        sound',
        tracked',
        numbers,
      )

  pub the_expected :
      (p : Bool) (k : Collector Part Full) (x : InFlight Share Sig)
      → TrackedOn e p k (x ∷ [])
      → (p ≡ true) × (k.combined_valid_signature_msg ≡ none) × IsAwaited e k x
  the_expected true k x (free, inl nothing) = absurd (cc nothing)
  the_expected true k x (free, inr (y, same, awaited)) =
      (refl, free, subst (IsAwaited e k) (sym (cc same)) awaited)
  the_expected false k x nothing = absurd (cc nothing)

  passes :
      (k : Collector Part Full) (seq view : ℕ)
      → k.processing_signatures_in_the_background ≡ true
      → k.combined_valid_signature_msg ≡ none
      → k.expected_seq_number ≡ seq
      → k.expected_view ≡ view
      → k.expected_seq_number == seq
          && k.expected_view == view
          && k.processing_signatures_in_the_background
          && is_none k.combined_valid_signature_msg
        ≡ true
  passes k seq view busy free hs hv =
      four_true (k.expected_seq_number == seq) (k.expected_view == view)
        k.processing_signatures_in_the_background (is_none k.combined_valid_signature_msg)
        (eq→== k.expected_seq_number seq hs) (eq→== k.expected_view view hv) busy (ap is_none free)

  pub on_bad_signatures-Sends :
      Relies e
      → (seq view : ℕ) (bad : List ℕ) (k : Collector Part Full) → IsSound e k
      → IsTracked e k (reported (combined_sig_failed seq view bad) ∷ [])
      → Sends e (on_bad_signatures e seq view bad k) (k.expected_view, k.expected_seq_number) []
  unfolding on_bad_signatures
  on_bad_signatures-Sends relies seq view bad k sound tracked =
      let (busy, free, (hs, hv, pass, differ)) =
        the_expected k.processing_signatures_in_the_background k _ tracked in
      let k1 = record k { processing_signatures_in_the_background = false } in
      let marked = mark_bad bad k1 in
      let k2 = record k1 {
        replicas_info = marked.replicas_info;
        number_of_unknown_signatures = marked.number_of_unknown_signatures;
      } in
      let same = mark_bad_rest bad k1 in
      let counted =
        mark_bad-IsCounted bad k1
          (record {
            ids = sound.counted.ids;
            present = sound.counted.present;
            unknowns = sound.counted.unknowns;
          })
          pass differ in
      let (k', jobs, ran, sound', tracked', numbers) =
        try_send_to_bk_thread-Sends e relies k2 []
          (record {
            counted = subst IsCounted same counted;
            required = sound.required;
            verified = λ m found. absurd (cc (free, found));
            idle = λ unset. (refl, free);
          })
          free refl in
      (
        k',
        jobs,
        asserted_once _ (try_send_to_bk_thread e marked) (passes k seq view busy free hs hv)
            ∙ ap (try_send_to_bk_thread e) same
            ∙ ran,
        sound',
        tracked',
        numbers,
      )

  -- A valid combined signature completes the collector.
  pub on_combined_signature-IsSound :
      Relies e
      → (seq view : ℕ) (sig : Sig) (k : Collector Part Full) → IsSound e k
      → IsTracked e k (reported (combined_sig_succeeded seq view sig) ∷ [])
      → let k' = record k {
        processing_signatures_in_the_background = false;
        candidate_combined_signature_msg = none;
        combined_valid_signature_msg = some (e.create_combined_signature_msg seq view sig);
      } in
        (on_combined_signature e seq view sig k ≡ some k') × IsSound e k'
  unfolding on_combined_signature
  on_combined_signature-IsSound relies seq view sig k sound tracked =
      let (busy, free, (hs, hv, valid)) =
        the_expected k.processing_signatures_in_the_background k _ tracked in
      (
        asserted_once _ _ (passes k seq view busy free hs hv),
        record {
          counted = record {
            ids = sound.counted.ids;
            present = sound.counted.present;
            unknowns = sound.counted.unknowns;
          };
          required = sound.required;
          verified = λ m found. (
            ap (e.threshold_verifier.verify k.expected_digest)
                  (ap e.signature_of (sym (cc found)) ∙ relies.carries seq view sig)
                ∙ valid,
            refl,
          );
          idle = λ unset. absurd (cc ((sound.idle unset).0, busy));
        },
      )

  pub on_combined_sig_verification-Sends :
      Relies e
      → (seq view : ℕ) (is_valid : Bool) (k : Collector Part Full) → IsSound e k
      → IsTracked e k (reported (verify_combined_sig_result seq view is_valid) ∷ [])
      → Sends e
          (on_combined_sig_verification e seq view is_valid k)
          (k.expected_view, k.expected_seq_number)
          []
  unfolding on_combined_sig_verification
  on_combined_sig_verification-Sends relies seq view is_valid k sound tracked =
      let (busy, free, (hs, hv, m, found, valid)) =
        the_expected k.processing_signatures_in_the_background k _ tracked in
      let k1 = record k {
        processing_signatures_in_the_background = false;
        candidate_combined_signature_msg = none;
      } in
      let counted : IsCounted k1 = record {
        ids = sound.counted.ids;
        present = sound.counted.present;
        unknowns = sound.counted.unknowns;
      } in
      let here = passes k seq view busy free hs hv in
      let present = ap not (ap is_none found) in
      elim (Bool-cases is_valid) [
        | inl good ↦ (
          record k1 { combined_valid_signature_msg = k.candidate_combined_signature_msg },
          [],
          asserted_once _ _ here ∙ asserted_once _ _ present ∙ if_true is_valid _ _ good,
          record {
            counted = record {
              ids = sound.counted.ids;
              present = sound.counted.present;
              unknowns = sound.counted.unknowns;
            };
            required = sound.required;
            verified = λ m' found'. (
              ap (λ x. e.threshold_verifier.verify k.expected_digest (e.signature_of x))
                    (cc (found, found'))
                  ∙ sym valid
                  ∙ good,
              refl,
            );
            idle = λ unset. absurd (cc ((sound.idle unset).0, busy));
          },
          refl,
          refl,
        )
        | inr wrong ↦
            let (k', jobs, ran, sound', tracked', numbers) =
              try_send_to_bk_thread-Sends e relies k1 []
                (record {
                  counted = counted;
                  required = sound.required;
                  verified = λ m' found'. absurd (cc (free, found'));
                  idle = λ unset. (refl, free);
                })
                free refl in
            (
              k',
              jobs,
              asserted_once _ _ here
                  ∙ asserted_once _ _ present
                  ∙ if_false is_valid _ _ wrong
                  ∙ ran,
              sound',
              tracked',
              numbers,
            )
      ]
