-- ===== src/Certificate/Quorum.antt =====
-- A quorum of equivalent messages stands behind a complete certificate.
use concord_rcanopus.Base.{
  ℕ, ◌+◌, ◌≤◌, ◌≡◌, refl, ◌∙◌, Bool, true, false, not, Option, none, some, List, [], ◌∷◌, arith,
  get_elem?, Bool-cases, inl, inr,
}
use concord_rcanopus.Certificate.{
  Config, Certificate, ClassInfo, MsgMap, lookup, is_some, has_msg_from_replica, add_all, make,
  is_complete,
}
use concord_rcanopus.Certificate.Support.{support}
use concord_rcanopus.Certificate.Invariant.{slack, BestHolds, IsSound, IsValid, Counted-get}
use concord_rcanopus.Certificate.Own.{IsEquivalence}
use concord_rcanopus.Certificate.Adding.{Added, add_msg-Added}

-- No replica has two messages.
abbrev pub Distinct {ℓ} : {T : Type ℓ} → MsgMap T → Type ℓ
Distinct [] = Unit
Distinct ((r, m) ∷ rest) = (lookup r rest ≡ none) × Distinct rest

module _ {T : Type 0} (equivalent : T → T → Bool) where
  make-IsValid : (cfg : Config) → IsValid equivalent (make cfg)
  unfolding make
  make-IsValid cfg = record {
    sound = record { counted = tt; best = (refl, refl); own = λ t. absurd (cc t) };
    done = λ d. absurd (cc d);
  }

  make_config : (cfg : Config) → (make {T = T} cfg).config ≡ cfg
  unfolding make
  make_config cfg = refl

  make_msgs : (cfg : Config) → Distinct ((make {T = T} cfg).msgs)
  unfolding make
  make_msgs cfg = tt

  -- Everything that a run of `addMsg` calls keeps.
  abbrev Ran : Config → Certificate T → Type 0
  Ran cfg c = IsValid equivalent c × (c.config ≡ cfg) × Distinct c.msgs

  Distinct-Added :
      (c : Certificate T) (x : T) (r : ℕ) (c' : Certificate T) (accepted : Bool)
      → Distinct c.msgs
      → Added equivalent c x r c' accepted
      → Distinct c'.msgs
  unfolding has_msg_from_replica
  Distinct-Added c x r c' true d (_, _, new, msgs) = rw msgs (none_of (lookup r c.msgs) new, d)
    where
      none_of : (o : Option T) → true ≡ not (is_some o) → o ≡ none
      none_of none e = refl
      none_of (some m) e = absurd (cc e)
  Distinct-Added c x r c' false d (_, _, _, msgs) = rw msgs d

  -- A run of `addMsg` calls from a valid certificate meets no fault and ends in a valid certificate
  -- that holds at most one message of each replica.
  add_all-Ran :
      (cfg : Config) (c : Certificate T) (ms : List (T × ℕ))
      → IsEquivalence equivalent
      → Ran cfg c
      → (c' : Certificate T) × (add_all equivalent c ms ≡ some c') × Ran cfg c'
  unfolding add_all
  add_all-Ran cfg c [] eq ran = (c, refl, ran)
  add_all-Ran cfg c ((x, r) ∷ ms) eq (valid, config, d) =
      let (c', accepted, runs, added) = add_msg-Added equivalent c x r eq valid in
      let ran' : Ran cfg c' =
        (added.0, added.1 ∙ config, Distinct-Added c x r c' accepted d added) in
      let (c'', runs', ran'') = add_all-Ran cfg c' ms eq ran' in
      (c'', rw (runs, add_all) runs', ran'')

  -- The messages behind a certificate: one of them heads the best class, and at least `required` of
  -- the stored messages, which come from distinct replicas, are equivalent to it; where the replica
  -- trusts its own message, one fewer may do.
  abbrev pub HasQuorum : Config → Certificate T → Type 0
  HasQuorum cfg c =
      Distinct c.msgs
      × ((r : ℕ) × (m : T) × (lookup r c.msgs ≡ some m)
          × (cfg.required ≤ support equivalent m c.msgs + slack cfg.self_trust))
      × (cfg.self_is_required ≡ true → is_some (lookup cfg.self_id c.msgs) ≡ true)

  best_class_of :
      (best : Option ℕ) (classes : List ClassInfo) (size : ℕ)
      → is_some best ≡ true
      → BestHolds best classes size
      → (i : ℕ) × (class : ClassInfo) × (get_elem? classes i ≡ some class) × (size ≤ class.size)
  best_class_of none classes size e h = absurd (cc e)
  best_class_of (some i) classes size e (class, at, le) = (i, class, at, le)

  slack-le :
      (c : Certificate T)
      → IsSound equivalent c
      → slack c.has_trusted_self_class ≤ slack c.self_trust
  slack-le c sound = elim (Bool-cases c.has_trusted_self_class) [
    | inl t ↦ rw ((sound.own t).2, t) (omega arith)
    | inr u ↦ rw u (omega arith)
  ]

  quorum :
      (c : Certificate T)
      → IsValid equivalent c
      → Distinct c.msgs
      → c.complete ≡ true
      → HasQuorum c.config c
  quorum c valid d done =
      let (some_best, large, own) = valid.done done in
      let (i, class, at, le) =
        best_class_of c.best_class c.classes c.size_of_best_class some_best valid.sound.best in
      let (m, look, counted) =
        Counted-get equivalent (slack c.has_trusted_self_class) c.msgs c.classes i class
          valid.sound.counted at in
      (
        d,
        (class.representative, m, look, omega (arith, large, le, counted, slack-le c valid.sound)),
        own,
      )

  Ran-quorum : (cfg : Config) (c : Certificate T) → Ran cfg c → c.complete ≡ true → HasQuorum cfg c
  Ran-quorum cfg c (valid, config, d) done = rw (← config) (quorum c valid d done)

  -- Every run of `addMsg` calls on a new certificate meets no fault, and if the certificate then
  -- reports to be complete, equivalent messages from distinct replicas are behind it: as many as are
  -- required, or one fewer where the replica trusts its own message. The own message is among the
  -- stored ones where it is required.
  pub add_all-quorum :
      (cfg : Config) (ms : List (T × ℕ))
      → IsEquivalence equivalent
      → (c : Certificate T) × (add_all equivalent (make cfg) ms ≡ some c)
        × (is_complete c ≡ true → HasQuorum cfg c)
  unfolding is_complete
  add_all-quorum cfg ms eq =
      let (c, runs, ran) =
        add_all-Ran cfg (make cfg) ms eq (make-IsValid cfg, make_config cfg, make_msgs cfg) in
      (c, runs, Ran-quorum cfg c ran)
