-- ===== src/Certificate/Twice.antt =====
-- The size that `addSelfMsg` records counts the replica's own message twice.
use mathlib.Core.Path.{subst}
use concord_rcanopus.Base.{
  ℕ, ◌+◌, ◌≤◌, ◌≡◌, ◌++◌, ap, inl, inr, refl, sym, Bool, true, false, Option, none, some, List, [],
  ◌∷◌, arith, length, get_elem?, Option-cases, if_true, if◌then◌else◌, some_inj, bind_inv,
  length-append,
}
use concord_rcanopus.Certificate.{
  Config, Certificate, ClassInfo, MsgMap, lookup, make, has_msg_from_replica, is_complete,
  find_class, head_own_class, add_self_msg, classify, add_msg, add_all,
}
use concord_rcanopus.Certificate.Invariant.{get-enlarge_self, lookup-store}
use concord_rcanopus.Certificate.Own.{IsEquivalence}
use concord_rcanopus.Certificate.Waiting.{AllFresh, arrived, AllAgree, one_class, Progress}
use concord_rcanopus.Certificate.Complete.{kept, run, length-arrived}

module _ {T : Type 0} (equivalent : T → T → Bool) where
  Completes : Option (Certificate T × Bool) → Type 0
  Completes result =
      (c : Certificate T) × (accepted : Bool) × (result ≡ some (c, accepted))
      × (is_complete c ≡ true)

  joins_class :
      (c : Certificate T) (x : T) (i : ℕ) (class : ClassInfo)
      → c.self_trust ≡ true
      → c.complete ≡ false
      → lookup c.self_id c.msgs ≡ none
      → find_class equivalent ((c.self_id, x) ∷ c.msgs) x c.classes 0 ≡ some (some i)
      → get_elem? c.classes i ≡ some class
      → c.required ≤ class.size + 2
      → Completes (add_msg equivalent c x c.self_id)
  unfolding Completes add_msg classify add_self_msg head_own_class is_complete
  joins_class c x i class trust pending fresh found at need = (
    record c {
      msgs = (c.self_id, x) ∷ c.msgs;
      classes = record { size = class.size + 1 + 1; representative = c.self_id } ∷ [];
      complete = true;
      best_class = some 0;
      size_of_best_class = class.size + 1 + 1;
      has_trusted_self_class = true;
    },
    true,
    ground (arith, get-enlarge_self equivalent i c.classes class),
    refl,
  )

  first_class :
      (m x : T) (o : Option T) (later : Option (Option ℕ))
      → o ≡ some m
      → equivalent m x ≡ true
      → (elim o [ none ↦ none | some head ↦ if equivalent head x then some (some 0) else later ])
        ≡ some (some 0)
  first_class m x none later same fits = absurd (cc same)
  first_class m x (some head) later same fits =
      if_true (equivalent head x) _ _
        (subst (λ k. equivalent k x ≡ true) (sym (some_inj same)) fits)

  module _ (cfg : Config) (x0 : T) where
    done_Completes :
        (c : Certificate T) (x : T) (r : ℕ)
        → c.complete ≡ true
        → Completes (add_msg equivalent c x r)
    unfolding Completes add_msg has_msg_from_replica is_complete
    done_Completes c x r done = elim (Option-cases (lookup r c.msgs)) [
      | inl fresh ↦ (
        record c { msgs = (r, x) ∷ c.msgs },
        true,
        rw fresh (
            kept equivalent cfg x0 c.complete (record c { msgs = (r, x) ∷ c.msgs })
              (classify equivalent (record c { msgs = (r, x) ∷ c.msgs }) x r) done),
        done,
      )
      | inr (m, sent) ↦ (c, false, rw sent refl, done)
    ]

    last_Completes :
        (msgs : MsgMap T) (c : Certificate T) (x : T)
        → IsEquivalence equivalent
        → cfg.self_trust ≡ true
        → 1 ≤ length msgs
        → cfg.required ≤ length msgs + 2
        → lookup cfg.self_id msgs ≡ none
        → equivalent x0 x ≡ true
        → Progress equivalent cfg x0 msgs c
        → Completes (add_msg equivalent c x cfg.self_id)
    unfolding Progress find_class
    last_Completes msgs c x eq trust some_sent need fresh agrees (inl done) =
        done_Completes c x cfg.self_id done
    last_Completes msgs c x eq trust some_sent need fresh agrees (inr (inl (empty, start))) =
        absurd (omega (arith, ap length empty))
    last_Completes msgs c x eq trust some_sent need fresh agrees
          (inr (inr (size, (rep, (trusted, now, w))))) =
        let look = lookup-store equivalent cfg.self_id rep x w.head msgs fresh w.held in
        let fits = eq.transfers x0 w.head x w.agrees agrees in
        subst (λ k. Completes (add_msg equivalent k x cfg.self_id)) (sym now)
          (joins_class (one_class equivalent cfg x0 msgs size rep trusted) x 0
            (record { size = size; representative = rep }) trust refl fresh
            (first_class w.head x (lookup rep ((cfg.self_id, x) ∷ msgs)) (some none) look fits) refl
            (omega (arith, w.large)))

    add_last :
        (c c' c'' : Certificate T) (ms : List (T × ℕ)) (x : T) (r : ℕ) (accepted : Bool)
        → add_all equivalent c ms ≡ some c'
        → add_msg equivalent c' x r ≡ some (c'', accepted)
        → add_all equivalent c (ms ++ (x, r) ∷ []) ≡ some c''
    unfolding add_all
    add_last c c' c'' [] x r accepted runs ends =
        subst (λ k. add_all equivalent k ((x, r) ∷ []) ≡ some c'') (sym (some_inj runs))
          (rw ends refl)
    add_last c c' c'' ((y, q) ∷ ms) x r accepted runs ends =
        let (z, ran, later) = bind_inv (add_msg equivalent c y q) _ _ runs in
        rw ran (add_last z.0 c' c'' ms x r accepted later ends)

    -- When one message fewer than required arrives at a new certificate, with room for a class, the
    -- replica's own trusted message last, after equivalent ones of at least one other replica and of
    -- no replica twice, the certificate is complete all the same: the own message is counted twice.
    pub own_message_counts_twice :
        (ms : List (T × ℕ)) (x : T)
        → IsEquivalence equivalent
        → cfg.self_trust ≡ true
        → 1 ≤ cfg.num_of_reps
        → AllFresh equivalent cfg x0 [] ms
        → AllAgree equivalent cfg x0 ms
        → lookup cfg.self_id (arrived equivalent cfg x0 [] ms) ≡ none
        → equivalent x0 x ≡ true
        → 1 ≤ length ms
        → length (ms ++ (x, cfg.self_id) ∷ []) + 1 ≡ cfg.required
        → (c : Certificate T) × (add_all equivalent (make cfg) (ms ++ (x, cfg.self_id) ∷ [])
            ≡ some c)
          × (is_complete c ≡ true)
    unfolding Completes Progress
    own_message_counts_twice ms x eq trust room fresh agree own agrees several fewer =
        let (c', runs, p) =
          run equivalent cfg x0 [] (make cfg) ms eq
            (omega (arith, length-append ms ((x, cfg.self_id) ∷ []))) room fresh agree
            (inr (inl (refl, refl))) in
        let (c, accepted, ends, done) =
          last_Completes (arrived equivalent cfg x0 [] ms) c' x eq trust
            (omega (arith, length-arrived equivalent cfg x0 [] ms))
            (omega (
              arith,
              length-arrived equivalent cfg x0 [] ms,
              length-append ms ((x, cfg.self_id) ∷ []),
            ))
            own agrees p in
        (c, add_last (make cfg) c' c ms x cfg.self_id accepted runs ends, done)
