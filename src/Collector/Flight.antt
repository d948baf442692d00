-- ===== src/Collector/Flight.antt =====
-- The jobs and results in flight: those of the collector's current numbers, those of earlier ones, and
-- what a job turns into.
use concord_rcanopus.Base.{
  ℕ, ◌<◌, ◌≡◌, ◌⊎◌, inl, inr, refl, sym, ap, ◌∙◌, Bool, true, false, ◌&&◌, ◌||◌, some, List, [],
  ◌∷◌, ◌++◌, arith, ltb, leb, le→leb, ◌==◌, ==→eq, eq→==, length, Bool-cases, and_true, if_true,
  if_false,
}
use mathlib.Core.Path.{subst}
use concord_rcanopus.Collector.{
  External, Collector, Job, signatures_processing, combined_sig_verification, InternalMessage,
  combined_sig_failed, combined_sig_succeeded, verify_combined_sig_result,
}
use concord_rcanopus.Collector.Completion.{execute, add_shares, bad_shares}
use concord_rcanopus.Collector.Entries.{is_unknown}
use concord_rcanopus.Collector.Shares.{both_true, bad_shares_lem}
use concord_rcanopus.Collector.System.{InFlight, queued, reported, number_of}
use concord_rcanopus.Collector.Invariant.{IsAwaited, TrackedOn}
use concord_rcanopus.Collector.Sending.{asserted_once}
use concord_rcanopus.Collector.Picking.{keep, every, Picked, picked_some, picked_one}

-- A later view, or a higher sequence number of the same view.
abbrev pub IsLater : ℕ → ℕ → ℕ → ℕ → Type 0
IsLater view seq view' seq' = (view < view') ⊎ ((view ≡ view') × (seq < seq'))

moved :
    (a b view seq view' seq' : ℕ)
    → IsLater view seq view' seq'
    → ltb a view || (a == view && leb b seq) ≡ true
    → (ltb a view' || (a == view' && leb b seq') ≡ true) × (view' == a && seq' == b ≡ false)
moved a b view seq view' seq' h past = ground arith

module _ {Share Sig : Type 0} where
  -- Of the collector's current numbers; not of later numbers; a job that holds what it requires.
  abbrev pub is_now : ℕ → ℕ → InFlight Share Sig → Bool
  is_now view seq x = view == (number_of x).0 && seq == (number_of x).1

  abbrev pub is_past : ℕ → ℕ → InFlight Share Sig → Bool
  is_past view seq x =
      ltb (number_of x).0 view || ((number_of x).0 == view && leb (number_of x).1 seq)

  abbrev pub is_formed : InFlight Share Sig → Bool
  is_formed (queued (signatures_processing seq view digest required items)) =
      length items == required
  is_formed (queued (combined_sig_verification seq view digest sig)) = true
  is_formed (reported m) = true

  pub now_past :
      (view seq : ℕ) (x : InFlight Share Sig) → is_now view seq x ≡ true → is_past view seq x ≡ true
  now_past view seq x h =
      let (hv, hs) = and_true (view == (number_of x).0) (seq == (number_of x).1) h in
      past_here (number_of x).0 (number_of x).1 view seq (sym (==→eq view (number_of x).0 hv))
        (sym (==→eq seq (number_of x).1 hs))
    where
      or_second : (a b : Bool) → b ≡ true → a || b ≡ true
      or_second true b h = refl
      or_second false b h = h

      past_here :
          (v s view seq : ℕ) → v ≡ view → s ≡ seq → ltb v view || (v == view && leb s seq) ≡ true
      past_here v s view seq same_view same_seq =
          or_second (ltb v view) (v == view && leb s seq)
            (both_true (eq→== v view same_view) (le→leb s seq (omega arith)))

  -- What is in flight when the collector's numbers move on is past them, and not current.
  pub past_moved :
      (view seq view' seq' : ℕ) (x : InFlight Share Sig)
      → IsLater view seq view' seq'
      → is_past view seq x ≡ true
      → (is_past view' seq' x ≡ true) × (is_now view' seq' x ≡ false)
  past_moved view seq view' seq' x h past =
      moved (number_of x).0 (number_of x).1 view seq view' seq' h past

module _ {Part Full Share Sig Acc : Type 0} (e : External Part Full Share Sig Acc) where
  -- An awaited job or result has the collector's numbers, and is well formed.
  awaited_number :
      (k : Collector Part Full) (x : InFlight Share Sig)
      → IsAwaited e k x
      → (is_now k.expected_view k.expected_seq_number x ≡ true) × (is_formed x ≡ true)
  awaited_number k (queued (signatures_processing seq view digest required items))
        (hs, hv, hd, size, pass) =
      (
        both_true (eq→== k.expected_view view hv) (eq→== k.expected_seq_number seq hs),
        eq→== (length items) required size,
      )
  awaited_number k (queued (combined_sig_verification seq view digest sig))
        (hs, hv, hd, m, found, same) =
      (both_true (eq→== k.expected_view view hv) (eq→== k.expected_seq_number seq hs), refl)
  awaited_number k (reported (combined_sig_failed seq view bad)) (hs, hv, pass, differ) =
      (both_true (eq→== k.expected_view view hv) (eq→== k.expected_seq_number seq hs), refl)
  awaited_number k (reported (combined_sig_succeeded seq view sig)) (hs, hv, valid) =
      (both_true (eq→== k.expected_view view hv) (eq→== k.expected_seq_number seq hs), refl)
  awaited_number k (reported (verify_combined_sig_result seq view is_valid))
        (hs, hv, m, found, same) =
      (both_true (eq→== k.expected_view view hv) (eq→== k.expected_seq_number seq hs), refl)

  -- So have the jobs that an operation starts.
  pub sent_now :
      (p : Bool) (k : Collector Part Full) (xs now : List (InFlight Share Sig))
      → TrackedOn e p k (xs ++ now)
      → (every (is_now k.expected_view k.expected_seq_number) xs ≡ true)
        × (every is_formed xs ≡ true)
  sent_now p k [] now tracked = (refl, refl)
  sent_now false k (x ∷ xs) now tracked = absurd (cc tracked)
  sent_now true k (x ∷ xs) now (free, inl nothing) = absurd (cc nothing)
  sent_now true k (x ∷ y ∷ xs) now (free, inr (z, same, awaited)) = absurd (cc same)
  sent_now true k (x ∷ []) now (free, inr (z, same, awaited)) =
      let (number, formed) = awaited_number k x (subst (IsAwaited e k) (sym (cc same)) awaited) in
      (both_true number refl, both_true formed refl)

  -- What is taken out, when it is current, is the one that is awaited.
  pub tracked_picked :
      (b : Bool) (k : Collector Part Full) (p : InFlight Share Sig → Bool) {x : InFlight Share Sig}
      {rest xs : List (InFlight Share Sig)}
      → Picked x rest xs
      → p x ≡ true
      → TrackedOn e b k (keep p xs)
      → (b ≡ true) × TrackedOn e true k (x ∷ []) × (keep p rest ≡ [])
  tracked_picked false k p picked h tracked = absurd (picked_some p picked h tracked)
  tracked_picked true k p picked h (free, inl nothing) = absurd (picked_some p picked h nothing)
  tracked_picked true k p picked h (free, inr (z, same, awaited)) =
      let (here, nothing) = picked_one p z picked h same in
      (refl, (free, inr (z, ap (λ y. y ∷ []) (sym here), awaited)), nothing)

  -- A well-formed job runs to a result with its numbers, and an awaited one to an awaited result.
  pub execute_lem :
      (job : Job Share Sig)
      → is_formed (queued job) ≡ true
      → (m : InternalMessage Sig) × (execute e job ≡ some m)
        × (number_of {Share = Share} (reported m) ≡ number_of (queued job))
        × ((k : Collector Part Full) → IsAwaited e k (queued job) → IsAwaited e k (reported m))
  unfolding execute
  execute_lem (combined_sig_verification seq view digest sig) formed =
      (_, refl, refl, λ k awaited. verification_awaited k seq view digest sig awaited)
    where
      verification_awaited :
          (k : Collector Part Full) (seq view digest : ℕ) (sig : Sig)
          → IsAwaited e k (queued (combined_sig_verification seq view digest sig))
          → IsAwaited e k (
              reported
                (verify_combined_sig_result seq view (e.threshold_verifier.verify digest sig)))
      verification_awaited k seq view digest sig (hs, hv, hd, m, found, same) = (
        hs,
        hv,
        m,
        found,
        ap (λ d. e.threshold_verifier.verify d sig) (sym hd)
            ∙ ap (e.threshold_verifier.verify k.expected_digest) same,
      )
  execute_lem (signatures_processing seq view digest required items) formed =
      let v = e.threshold_verifier in
      let sig =
        v.get_full_signed_data
          (v.set_expected_digest digest (add_shares e (v.new_accumulator false) items)) in
      let acc = v.set_expected_digest digest (v.new_accumulator true) in
      elim (Bool-cases (v.verify digest sig)) [
        | inl good ↦ (
          combined_sig_succeeded seq view sig,
          asserted_once (length items == required) _ formed
              ∙ if_true (v.verify digest sig) _ _ good,
          refl,
          λ k (hs, hv, hd, size, pass). (hs, hv, ap (λ d. v.verify d sig) hd ∙ good),
        )
        | inr wrong ↦ (
          combined_sig_failed seq view (bad_shares e acc 0 items),
          asserted_once (length items == required) _ formed
              ∙ if_false (v.verify digest sig) _ _ wrong,
          refl,
          λ k (hs, hv, hd, size, pass). (
            hs,
            hv,
            (bad_shares_lem e (is_unknown k.replicas_info) acc 0 items pass).0,
            (bad_shares_lem e (is_unknown k.replicas_info) acc 0 items pass).1,
          ),
        )
      ]
