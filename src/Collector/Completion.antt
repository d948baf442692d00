-- ===== src/Collector/Completion.antt =====
-- CollectorOfThresholdSignatures.hpp: the jobs of the thread pool, and the handlers of their results.
use concord_rcanopus.Base.{
  ℕ, ◌+◌, ◌%◌, ◌^◌, Bool, true, false, not, ◌&&◌, Option, none, some, List, [], ◌∷◌, ◌==◌,
  if◌then◌else◌, length, ◌>>◌, assert,
}
use concord_rcanopus.Collector.{
  External, Collector, Job, signatures_processing, combined_sig_verification, InternalMessage,
  combined_sig_failed, combined_sig_succeeded, verify_combined_sig_result, is_none, insert_id,
  mark_bad, try_send_to_bk_thread,
}

module _ {Part Full Share Sig Acc : Type 0} (e : External Part Full Share Sig Acc) where
  -- The asserts that the completion handlers begin with.
  abbrev pub is_awaited : ℕ → ℕ → Collector Part Full → Bool
  is_awaited seq view k =
      k.expected_seq_number == seq
      && k.expected_view == view
      && k.processing_signatures_in_the_background
      && is_none k.combined_valid_signature_msg

  unfoldable pub on_bad_signatures :
      ℕ → ℕ → List ℕ → Collector Part Full → Option (Collector Part Full × List (Job Share Sig))
  on_bad_signatures seq view bad k = do
    assert (is_awaited seq view k)
    try_send_to_bk_thread e
        (mark_bad bad (record k { processing_signatures_in_the_background = false }))

  unfoldable pub on_combined_signature :
      ℕ → ℕ → Sig → Collector Part Full → Option (Collector Part Full)
  on_combined_signature seq view sig k = do
    assert (is_awaited seq view k)
    some (record k {
      processing_signatures_in_the_background = false;
      candidate_combined_signature_msg = none;
      combined_valid_signature_msg = some (e.create_combined_signature_msg seq view sig);
    })

  unfoldable pub on_combined_sig_verification :
      ℕ → ℕ → Bool → Collector Part Full → Option (Collector Part Full × List (Job Share Sig))
  on_combined_sig_verification seq view is_valid k = do
    assert (is_awaited seq view k)
    assert (not (is_none k.candidate_combined_signature_msg))
    let k' = record k {
      processing_signatures_in_the_background = false;
      candidate_combined_signature_msg = none;
    }
    (if is_valid
        then some
            (record k' { combined_valid_signature_msg = k.candidate_combined_signature_msg }, [])
        else try_send_to_bk_thread e k')

  -- The shares that do not raise the number of valid ones, `valid` so far.
  unfoldable pub bad_shares : Acc → ℕ → List (ℕ × Share) → List ℕ
  bad_shares acc valid [] = []
  bad_shares acc valid ((r, share) ∷ rest) =
      let (acc', total) = e.threshold_verifier.add_share share acc in
      let bad = bad_shares acc' (total % 2 ^ 16) rest in
      if valid + 1 == total % 2 ^ 16 then bad else insert_id r bad

  unfoldable pub add_shares : Acc → List (ℕ × Share) → Acc
  add_shares acc [] = acc
  add_shares acc ((r, share) ∷ rest) = add_shares (e.threshold_verifier.add_share share acc).0 rest

  -- Both jobs' `execute`.
  unfoldable pub execute : Job Share Sig → Option (InternalMessage Sig)
  execute (signatures_processing seq view digest required items) = do
    assert (length items == required)
    let v = e.threshold_verifier
    let acc = add_shares (v.new_accumulator false) items
    let sig = v.get_full_signed_data (v.set_expected_digest digest acc)
    (if v.verify digest sig
        then some (combined_sig_succeeded seq view sig)
        else some (
            combined_sig_failed seq view
              (bad_shares (v.set_expected_digest digest (v.new_accumulator true)) 0 items)))
  execute (combined_sig_verification seq view digest sig) =
      some (verify_combined_sig_result seq view (e.threshold_verifier.verify digest sig))
