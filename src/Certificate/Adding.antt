-- ===== src/Certificate/Adding.antt =====
-- What one call of `addMsg` does: no fault, one message to a replica, and the invariant kept.
use concord_rcanopus.Base.{
  ℕ, ◌≡◌, refl, Bool, true, false, ◌&&◌, not, Option, none, some, ◌∷◌, arith, ◌==◌, if◌then◌else◌,
  Option-cases, inl, inr, ◌>>=◌,
}
use concord_rcanopus.Certificate.{
  Certificate, lookup, has_msg_from_replica, try_to_mark_complete, grow_class, new_class,
  find_class, add_to_trusted, add_to_class, add_peer_msg, head_own_class, add_self_msg, classify,
  add_msg,
}
use concord_rcanopus.Certificate.Invariant.{IsSound, IsValid, Keeps, if-Keeps}
use concord_rcanopus.Certificate.Peer.{store, store-IsSound, own-store, add_peer_msg-Keeps}
use concord_rcanopus.Certificate.Own.{IsEquivalence, add_self_msg-Keeps}

module _ {T : Type 0} (equivalent : T → T → Bool) where
  -- The map and the configuration of a certificate, which filing a message leaves alone.
  abbrev Files : Certificate T → Option (Certificate T) → Type 0
  Files c none = Unit
  Files c (some c') = (c'.msgs ≡ c.msgs) × (c'.config ≡ c.config)

  try_to_mark_complete-Files : (c : Certificate T) → Files c (some (try_to_mark_complete c))
  unfolding try_to_mark_complete
  try_to_mark_complete-Files c = ground arith

  grow_class-Files : (c : Certificate T) (i : ℕ) → Files c (grow_class c i)
  unfolding grow_class
  grow_class-Files c i = ground arith

  new_class-Files : (c : Certificate T) (r : ℕ) → Files c (some (new_class c r))
  unfolding new_class
  new_class-Files c r = ground arith

  add_to_trusted-Files : (c : Certificate T) (x : T) → Files c (add_to_trusted equivalent c x)
  unfolding add_to_trusted
  add_to_trusted-Files c x = ground (arith, grow_class-Files c 0)

  add_to_class-Files :
      (c : Certificate T) (r : ℕ) (found : Option (Option ℕ))
      → Files c (found >>= add_to_class equivalent c r)
  add_to_class-Files c r none = tt
  add_to_class-Files c r (some none) = new_class-Files c r
  add_to_class-Files c r (some (some i)) = grow_class-Files c i

  if-Files :
      (b : Bool) (c : Certificate T) (o o' : Option (Certificate T))
      → Files c o
      → Files c o'
      → Files c (if b then o else o')
  if-Files true c o o' h k = h
  if-Files false c o o' h k = k

  add_peer_msg-Files : (c : Certificate T) (x : T) (r : ℕ) → Files c (add_peer_msg equivalent c x r)
  unfolding add_peer_msg
  add_peer_msg-Files c x r =
      if-Files c.has_trusted_self_class c _ _ (add_to_trusted-Files c x)
        (add_to_class-Files c r (find_class equivalent c.msgs x c.classes 0))

  add_self_msg-Files : (c : Certificate T) (x : T) → Files c (add_self_msg equivalent c x)
  unfolding add_self_msg head_own_class
  add_self_msg-Files c x = ground arith

  classify-Files : (c : Certificate T) (x : T) (r : ℕ) → Files c (classify equivalent c x r)
  unfolding classify
  classify-Files c x r = ground (arith, add_self_msg-Files c x, add_peer_msg-Files c x r)

  -- Filing the message of a new replica, by the branch that its sender selects.
  classify-Keeps :
      (c : Certificate T) (x : T) (r : ℕ)
      → IsEquivalence equivalent
      → IsSound equivalent c
      → lookup r c.msgs ≡ none
      → c.complete ≡ false
      → Keeps equivalent (classify equivalent (store c x r) x r)
  unfolding classify
  classify-Keeps c x r eq sound fresh pending =
      if-Keeps equivalent (c.self_trust && r == c.self_id) _ _
        (λ own.
          let same : r ≡ c.self_id = ground arith in
          rw same
            (add_self_msg-Keeps equivalent c x sound (rw same at fresh) pending eq (ground arith)))
        (λ _. add_peer_msg-Keeps equivalent c x r sound fresh pending (eq.reflexive x))

  -- What a call of `addMsg` leaves: the first message of each replica, and the invariant.
  abbrev pub Added : Certificate T → T → ℕ → Certificate T → Bool → Type 0
  Added c x r c' accepted =
      IsValid equivalent c'
      × (c'.config ≡ c.config)
      × (accepted ≡ not (has_msg_from_replica c r))
      × (c'.msgs ≡ (if accepted then (r, x) ∷ c.msgs else c.msgs))

  module _ (c : Certificate T) (x : T) (r : ℕ) (eq : IsEquivalence equivalent)
      (valid : IsValid equivalent c) (fresh : lookup r c.msgs ≡ none) where
    store-IsValid : IsValid equivalent (store c x r)
    store-IsValid = record {
      sound = store-IsSound equivalent c x r valid.sound fresh;
      done = λ d. (
        (valid.done d).0,
        (valid.done d).1,
        λ needed. own-store equivalent c x r ((valid.done d).2 needed),
      );
    }

    add_msg_new :
        (b : Bool)
        → c.complete ≡ b
        → (c' : Certificate T) × ((if b
              then some (store c x r)
              else classify equivalent (store c x r) x r)
            ≡ some c')
          × IsValid equivalent c'
          × Files (store c x r) (some c')
    add_msg_new true e = (store c x r, refl, store-IsValid, (refl, refl))
    add_msg_new false e =
        let (c', runs, valid') = classify-Keeps c x r eq valid.sound fresh e in
        (c', runs, valid', (rw runs at (classify-Files (store c x r) x r)))

  -- Adding a message to a valid certificate meets no fault and keeps the certificate valid. The call
  -- accepts the message exactly when its replica has none yet; then the message is stored, and
  -- otherwise the map of messages is unchanged. The configuration never changes.
  pub add_msg-Added :
      (c : Certificate T) (x : T) (r : ℕ)
      → IsEquivalence equivalent
      → IsValid equivalent c
      → (c' : Certificate T) × (accepted : Bool) × (add_msg equivalent c x r ≡ some (c', accepted))
        × Added c x r c' accepted
  unfolding add_msg has_msg_from_replica
  add_msg-Added c x r eq valid = elim (Option-cases (lookup r c.msgs)) [
    | inl fresh ↦
        let (c', runs, valid', (msgs, config)) = add_msg_new c x r eq valid fresh c.complete refl in
        (c', true, rw (fresh, runs), (valid', config, rw fresh, msgs))
    | inr (m, known) ↦ (c, false, rw known, (valid, refl, rw known, refl))
  ]
