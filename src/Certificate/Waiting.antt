-- ===== src/Certificate/Waiting.antt =====
-- A certificate whose messages all agree, until its class is large enough and the own message there.
use native.Mathlib.Decide.{dec_le}
use concord_rcanopus.Base.{
  ℕ, ◌+◌, ◌≤◌, ◌≡◌, ◌⊎◌, inl, inr, refl, sym, Bool, true, false, not, ◌&&◌, ◌||◌, Option, none,
  some, List, [], ◌∷◌, arith, leb, ◌==◌, if◌then◌else◌, length, le→leb, not_le→leb, lt→ltb, eq→==,
  ==→eq, Bool-cases,
}
use concord_rcanopus.Certificate.{
  Config, Certificate, MsgMap, lookup, is_some, make, has_msg_from_replica, try_to_mark_complete,
  note_larger, finish_class, grow_class, new_class, find_class, add_to_trusted, add_peer_msg,
  head_own_class, add_self_msg, classify,
}
use concord_rcanopus.Certificate.Invariant.{lookup-store}
use concord_rcanopus.Certificate.Own.{IsEquivalence}

module _ {T : Type 0} (equivalent : T → T → Bool) (cfg : Config) (x0 : T) where
  -- Messages with no sender twice, and the map that they fill.
  abbrev pub AllFresh : MsgMap T → List (T × ℕ) → Type 0
  AllFresh msgs [] = Unit
  AllFresh msgs ((x, r) ∷ rest) = (lookup r msgs ≡ none) × AllFresh ((r, x) ∷ msgs) rest

  abbrev pub arrived : MsgMap T → List (T × ℕ) → MsgMap T
  arrived msgs [] = msgs
  arrived msgs ((x, r) ∷ rest) = arrived ((r, x) ∷ msgs) rest

  -- Messages that are equivalent to `x0`.
  abbrev pub AllAgree : List (T × ℕ) → Type 0
  AllAgree [] = Unit
  AllAgree ((x, r) ∷ rest) = (equivalent x0 x ≡ true) × AllAgree rest

  -- A certificate with one class, that is not complete.
  abbrev pub one_class : MsgMap T → ℕ → ℕ → Bool → Certificate T
  one_class msgs size rep trusted = record {
    config = cfg;
    msgs = msgs;
    classes = record { size = size; representative = rep } ∷ [];
    complete = false;
    best_class = some 0;
    size_of_best_class = size;
    has_trusted_self_class = trusted;
  }

  -- The class holds every message so far, and if it is large enough, it is the own message that is
  -- still missing.
  pub record IsWaiting (msgs : MsgMap T) (size rep : ℕ) : Type 0 where
    pub large : length msgs ≤ size
    pub head : T
    pub held : lookup rep msgs ≡ some head
    pub agrees : equivalent x0 head ≡ true
    pub missing :
        cfg.required ≤ size
        → (cfg.self_is_required ≡ true) × (is_some (lookup cfg.self_id msgs) ≡ false)

  unfoldable pub Progress : MsgMap T → Certificate T → Type 0
  Progress msgs c =
      (c.complete ≡ true)
      ⊎ (((msgs ≡ []) × (c ≡ make cfg))
          ⊎ ((size : ℕ) × ((rep : ℕ) × ((trusted : Bool) × (c ≡ one_class msgs size rep trusted)
                  × IsWaiting msgs size rep))))

  -- The certificate after its class has become large enough, or not.
  settle :
      (msgs : MsgMap T) (size rep : ℕ) (trusted : Bool) (m : T)
      → length msgs ≤ size
      → lookup rep msgs ≡ some m
      → equivalent x0 m ≡ true
      → Progress msgs (
          if leb cfg.required size
          then try_to_mark_complete (one_class msgs size rep trusted)
          else one_class msgs size rep trusted)
  unfolding Progress try_to_mark_complete has_msg_from_replica
  settle msgs size rep trusted m large held agrees = elim (dec_le cfg.required size) [
    | no few ↦ rw (not_le→leb cfg.required size few) (
        inr (
          inr (
            size,
            (
              rep,
              (
                trusted,
                refl,
                record {
                  large = large;
                  head = m;
                  held = held;
                  agrees = agrees;
                  missing = λ enough. absurd (few enough);
                },
              ),
            ),
          )))
    | yes enough ↦
        elim (Bool-cases (not cfg.self_is_required || is_some (lookup cfg.self_id msgs))) [
          | inl marks ↦ rw (le→leb cfg.required size enough, marks) (inl refl)
          | inr lacks ↦
              rw (le→leb cfg.required size enough, lacks)
                (inr (
                  inr (
                    size,
                    (
                      rep,
                      (
                        trusted,
                        refl,
                        record {
                          large = large;
                          head = m;
                          held = held;
                          agrees = agrees;
                          missing = λ e.
                              lacking cfg.self_is_required (is_some (lookup cfg.self_id msgs))
                                lacks;
                        },
                      ),
                    ),
                  )))
        ]
  ]
    where
      lacking : (need own : Bool) → not need || own ≡ false → (need ≡ true) × (own ≡ false)
      lacking true false h = (refl, refl)
      lacking true true h = absurd (cc h)
      lacking false own h = absurd (cc h)

  -- A classified message leads on.
  abbrev pub Leads : MsgMap T → Option (Certificate T) → Type 0
  Leads msgs result = (c : Certificate T) × (result ≡ some c) × Progress msgs c

  grow_class_lem :
      (msgs : MsgMap T) (size rep : ℕ) (trusted : Bool)
      → grow_class (one_class msgs size rep trusted) 0
        ≡ some (
            if leb cfg.required (size + 1)
            then try_to_mark_complete (one_class msgs (size + 1) rep trusted)
            else one_class msgs (size + 1) rep trusted)
  unfolding grow_class note_larger finish_class
  grow_class_lem msgs size rep trusted = rw (lt→ltb size (size + 1) (omega arith)) refl

  grow-Leads :
      (msgs : MsgMap T) (size rep : ℕ) (trusted : Bool) (m : T)
      → length msgs ≤ size + 1
      → lookup rep msgs ≡ some m
      → equivalent x0 m ≡ true
      → Leads msgs (grow_class (one_class msgs size rep trusted) 0)
  grow-Leads msgs size rep trusted m large held agrees = (
    _,
    grow_class_lem msgs size rep trusted,
    settle msgs (size + 1) rep trusted m large held agrees,
  )

  find_only :
      (msgs : MsgMap T) (x m : T) (size rep : ℕ)
      → lookup rep msgs ≡ some m
      → equivalent m x ≡ true
      → find_class equivalent msgs x (record { size = size; representative = rep } ∷ []) 0
        ≡ some (some 0)
  unfolding find_class
  find_only msgs x m size rep held same = rw (held, find_class, same) refl

  peer-Leads :
      (msgs : MsgMap T) (size rep : ℕ) (trusted : Bool) (m x : T) (r : ℕ)
      → length msgs ≤ size + 1
      → lookup rep msgs ≡ some m
      → equivalent x0 m ≡ true
      → equivalent m x ≡ true
      → Leads msgs (add_peer_msg equivalent (one_class msgs size rep trusted) x r)
  unfolding add_peer_msg add_to_trusted
  peer-Leads msgs size rep true m x r large held agrees same =
      rw (held, same) (grow-Leads msgs size rep true m large held agrees)
  peer-Leads msgs size rep false m x r large held agrees same =
      rw (find_only msgs x m size rep held same)
        (grow-Leads msgs size rep false m large held agrees)

  self-Leads :
      (msgs : MsgMap T) (size rep : ℕ) (trusted : Bool) (m x : T)
      → length msgs ≤ size + 1
      → lookup rep msgs ≡ some m
      → equivalent m x ≡ true
      → lookup cfg.self_id msgs ≡ some x
      → equivalent x0 x ≡ true
      → Leads msgs (add_self_msg equivalent (one_class msgs size rep trusted) x)
  unfolding add_self_msg head_own_class
  self-Leads msgs size rep trusted m x large held same own agrees =
      rw (find_only msgs x m size rep held same)
        (_, refl, settle msgs (size + 1 + 1) cfg.self_id true x (omega arith) own agrees)

  first_self-Leads :
      (x : T) (r : ℕ)
      → lookup cfg.self_id ((r, x) ∷ []) ≡ some x
      → equivalent x0 x ≡ true
      → Leads ((r, x) ∷ []) (add_self_msg equivalent (record (make cfg) { msgs = (r, x) ∷ [] }) x)
  unfolding add_self_msg find_class head_own_class make
  first_self-Leads x r own agrees =
      (_, refl, settle ((r, x) ∷ []) 1 cfg.self_id true x (omega arith) own agrees)

  first_peer-Leads :
      (x : T) (r : ℕ)
      → 2 ≤ cfg.required
      → 1 ≤ cfg.num_of_reps
      → equivalent x0 x ≡ true
      → Leads ((r, x) ∷ []) (add_peer_msg equivalent (record (make cfg) { msgs = (r, x) ∷ [] }) x r)
  unfolding add_peer_msg find_class new_class make Progress
  first_peer-Leads x r several room agrees = rw (not_le→leb cfg.num_of_reps 0 (omega arith)) (
    one_class ((r, x) ∷ []) 1 r false,
    refl,
    inr (
        inr (
          1,
          (
            r,
            (
              false,
              refl,
              record {
                large = omega arith;
                head = x;
                held = rw (eq→== r r refl) refl;
                agrees = agrees;
                missing = λ enough. absurd (omega arith);
              },
            ),
          ),
        )),
  )

  own_held :
      (msgs : MsgMap T) (x : T) (r : ℕ)
      → (r == cfg.self_id) ≡ true
      → lookup cfg.self_id ((r, x) ∷ msgs) ≡ some x
  own_held msgs x r e = rw (eq→== cfg.self_id r (sym (==→eq r cfg.self_id e))) refl

  both : (a b : Bool) → a && b ≡ true → b ≡ true
  both true b h = h
  both false b h = absurd (cc h)

  if-Leads :
      (b : Bool) (msgs : MsgMap T) (u v : Option (Certificate T))
      → (b ≡ true → Leads msgs u)
      → (b ≡ false → Leads msgs v)
      → Leads msgs (if b then u else v)
  if-Leads true msgs u v fu fv = fu refl
  if-Leads false msgs u v fu fv = fv refl

  -- The messages so far and the new one, classified.
  pub classify-Leads :
      (msgs : MsgMap T) (size rep : ℕ) (trusted : Bool) (x : T) (r : ℕ)
      → IsEquivalence equivalent
      → lookup r msgs ≡ none
      → equivalent x0 x ≡ true
      → IsWaiting msgs size rep
      → Leads ((r, x) ∷ msgs) (classify equivalent (one_class ((r, x) ∷ msgs) size rep trusted) x r)
  unfolding classify
  classify-Leads msgs size rep trusted x r eq fresh agrees w =
      let msgs' = (r, x) ∷ msgs in
      let held = lookup-store equivalent r rep x w.head msgs fresh w.held in
      let same = eq.transfers x0 w.head x w.agrees agrees in
      if-Leads (cfg.self_trust && r == cfg.self_id) msgs' _ _
        (λ own.
          self-Leads msgs' size rep trusted w.head x (omega (arith, w.large)) held same
            (own_held msgs x r (both cfg.self_trust (r == cfg.self_id) own)) agrees)
        (λ peer.
          peer-Leads msgs' size rep trusted w.head x r (omega (arith, w.large)) held w.agrees same)

  pub classify_first :
      (x : T) (r : ℕ)
      → 2 ≤ cfg.required
      → 1 ≤ cfg.num_of_reps
      → equivalent x0 x ≡ true
      → Leads ((r, x) ∷ []) (classify equivalent (record (make cfg) { msgs = (r, x) ∷ [] }) x r)
  unfolding classify make
  classify_first x r several room agrees =
      if-Leads (cfg.self_trust && r == cfg.self_id) ((r, x) ∷ []) _ _
        (λ own.
          first_self-Leads x r (own_held [] x r (both cfg.self_trust (r == cfg.self_id) own))
            agrees)
        (λ peer. first_peer-Leads x r several room agrees)
