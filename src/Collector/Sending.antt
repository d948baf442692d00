-- ===== src/Collector/Sending.antt =====
-- `trySendToBkThread` of a sound collector succeeds and leaves a sound one.
use concord_rcanopus.Base.{
  ℕ, ◌≡◌, inl, inr, refl, sym, ◌∙◌, Bool, true, false, ◌&&◌, Option, none, some, List, [], ◌==◌,
  if◌then◌else◌, Bool-cases, if_true, if_false, ==→ne, ◌>>◌, assert,
}
use mathlib.Core.Path.{subst}
use concord_rcanopus.Collector.{
  External, Collector, signatures_processing, combined_sig_verification, combined_sig_failed,
  combined_sig_succeeded, verify_combined_sig_result, is_none, try_send_to_bk_thread,
}
use concord_rcanopus.Collector.System.{InFlight, queued, reported}
use concord_rcanopus.Collector.Invariant.{
  Relies, IsSound, IsAwaited, TrackedOn, IsTracked, Sends, kept_required, send_job-Sends,
}

pub is_none_lem : {A : Type 0} (o : Option A) → is_none o ≡ true → o ≡ none
is_none_lem none h = refl
is_none_lem (some a) h = absurd (cc h)

pub asserted :
    {A : Type 0} (a b c : Bool) (rest : Option A)
    → a ≡ true
    → b ≡ true
    → c ≡ true
    → (do assert a; assert b; assert c; rest) ≡ rest
asserted a b c rest ha hb hc = rw (ha, hb, hc) refl

pub asserted_once : {A : Type 0} (a : Bool) (rest : Option A) → a ≡ true → (assert a >> rest) ≡ rest
asserted_once a rest ha = rw ha refl

pub four_true :
    (a b c d : Bool) → a ≡ true → b ≡ true → c ≡ true → d ≡ true → a && b && c && d ≡ true
four_true a b c d ha hb hc hd = rw (ha, hb, hc, hd) refl

module _ {Part Full Share Sig Acc : Type 0} (e : External Part Full Share Sig Acc) where
  -- The fields that an awaited job or result does not speak of.
  pub still_expected :
      (k : Collector Part Full) (n : ℕ) (p : Bool) (o : Option Full) (x : InFlight Share Sig)
      → IsAwaited e k x
      → IsAwaited e
          (record k {
            num_of_required_sigs = n;
            processing_signatures_in_the_background = p;
            combined_valid_signature_msg = o;
          })
          x
  still_expected k n p o (queued (signatures_processing seq view digest required items)) h = h
  still_expected k n p o (queued (combined_sig_verification seq view digest sig)) h = h
  still_expected k n p o (reported (combined_sig_failed seq view bad)) h = h
  still_expected k n p o (reported (combined_sig_succeeded seq view sig)) h = h
  still_expected k n p o (reported (verify_combined_sig_result seq view is_valid)) h = h

  tracked_kept :
      (k : Collector Part Full) (n : ℕ) (now : List (InFlight Share Sig))
      → TrackedOn e true k now
      → TrackedOn e true
          (record k {
            num_of_required_sigs = n;
            processing_signatures_in_the_background = true;
            combined_valid_signature_msg = none;
          })
          now
  tracked_kept k n now (free, inl nothing) = (refl, inl nothing)
  tracked_kept k n now (free, inr (x, same, awaited)) =
      (refl, inr (x, same, still_expected k n true none x awaited))

  required_known :
      Relies e
      → (k : Collector Part Full) → IsSound e k
      → IsSound e (record k {
        num_of_required_sigs =
            if k.num_of_required_sigs == 0
            then e.number_of_required_signatures
            else k.num_of_required_sigs;
      })
  required_known relies k sound = record {
    counted = record {
      ids = sound.counted.ids;
      present = sound.counted.present;
      unknowns = sound.counted.unknowns;
    };
    required = inr (kept_required e relies k.num_of_required_sigs sound.required);
    verified = sound.verified;
    idle = sound.idle;
  }

  abbrev known : Collector Part Full → ℕ
  known k =
      if k.num_of_required_sigs == 0
      then e.number_of_required_signatures
      else k.num_of_required_sigs

  starts_free :
      Relies e
      → (p : Bool) (k : Collector Part Full) (now : List (InFlight Share Sig))
      → IsSound e (record k {
        processing_signatures_in_the_background = p;
        combined_valid_signature_msg = none;
      })
      → TrackedOn e p
          (record k {
            processing_signatures_in_the_background = p;
            combined_valid_signature_msg = none;
          })
          now
      → Sends e
          (try_send_to_bk_thread e (record k {
            processing_signatures_in_the_background = p;
            combined_valid_signature_msg = none;
          }))
          (k.expected_view, k.expected_seq_number)
          now
  unfolding try_send_to_bk_thread
  starts_free relies true k now sound tracked = (
    _,
    [],
    refl,
    required_known relies _ sound,
    tracked_kept
        (record k {
          processing_signatures_in_the_background = true;
          combined_valid_signature_msg = none;
        })
        (known k) now tracked,
    refl,
  )
  starts_free relies false k now sound tracked =
      subst (Sends e _ (k.expected_view, k.expected_seq_number)) (sym tracked)
        (elim (Bool-cases (k.expected_seq_number == 0)) [
          | inl unset ↦ (
            _,
            [],
            if_true (k.expected_seq_number == 0) _ _ unset,
            required_known relies _ sound,
            refl,
            refl,
          )
          | inr expected ↦
              let (k', jobs, ran, sound', tracked', numbers) =
                send_job-Sends e relies (record k { num_of_required_sigs = known k })
                  k.candidate_combined_signature_msg (required_known relies _ sound)
                  (kept_required e relies k.num_of_required_sigs sound.required)
                  (==→ne k.expected_seq_number 0 expected) in
              (
                k',
                jobs,
                if_false (k.expected_seq_number == 0) _ _ expected ∙ ran,
                sound',
                tracked',
                numbers,
              )
        ])

  -- `trySendToBkThread` of a collector without a combined message.
  pub try_send_to_bk_thread-Sends :
      Relies e
      → (k : Collector Part Full) (now : List (InFlight Share Sig)) → IsSound e k
      → k.combined_valid_signature_msg ≡ none
      → IsTracked e k now
      → Sends e (try_send_to_bk_thread e k) (k.expected_view, k.expected_seq_number) now
  try_send_to_bk_thread-Sends relies k now sound free tracked =
      subst
        (λ o.
          IsSound e (record k { combined_valid_signature_msg = o })
          → TrackedOn e k.processing_signatures_in_the_background
              (record k { combined_valid_signature_msg = o }) now
          → Sends e (try_send_to_bk_thread e (record k { combined_valid_signature_msg = o }))
              (k.expected_view, k.expected_seq_number) now)
        (sym free) (starts_free relies k.processing_signatures_in_the_background k now) sound
        tracked
