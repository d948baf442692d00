-- ===== src/Certificate/Peer.antt =====
-- `addPeerMsg` keeps the invariant.
use native.Mathlib.Nat.{zero-add}
use concord_rcanopus.Base.{
  ℕ, ◌+◌, ◌<◌, ◌≡◌, refl, ◌∙◌, Bool, true, false, Option, none, some, List, [], ◌∷◌, ◌++◌, arith,
  ltb, leb, length, get_elem?, modify, get_elem?-append, get_elem?_lt, get_elem?-append_last,
  length-modify, eq→==, Bool-cases, inl, inr, ◌>>=◌,
}
use concord_rcanopus.Certificate.{
  Certificate, ClassInfo, lookup, is_some, enlarge, note_larger, grow_class, new_class,
  add_to_trusted, add_to_class, add_peer_msg,
}
use concord_rcanopus.Certificate.Support.{Finds, find_class-Finds}
use concord_rcanopus.Certificate.Invariant.{
  slack, Counted, IsSound, IsValid, Counted-Found, Counted-store, Counted-grow, get-enlarge_self,
  Headed, Headed-modify, BestHolds-modify, Keeps, if-Keeps, Counted-get, pending-IsValid,
  finish_class-IsValid,
}

-- The certificate once the message of a new replica is in the map.
abbrev pub store {ℓ} : {T : Type ℓ} → Certificate T → T → ℕ → Certificate T
store c x r = record c { msgs = (r, x) ∷ c.msgs }

module _ {T : Type 0} (equivalent : T → T → Bool) where
  pub own-store :
      (c : Certificate T) (x : T) (r : ℕ)
      → is_some (lookup c.self_id c.msgs) ≡ true
      → is_some (lookup c.self_id ((r, x) ∷ c.msgs)) ≡ true
  own-store c x r h = ground arith

  pub store-IsSound :
      (c : Certificate T) (x : T) (r : ℕ)
      → IsSound equivalent c
      → lookup r c.msgs ≡ none
      → IsSound equivalent (store c x r)
  store-IsSound c x r s fresh = record {
    counted = Counted-store equivalent _ r x c.msgs c.classes fresh s.counted;
    best = s.best;
    own = λ t. (own-store c x r (s.own t).0, (s.own t).1, (s.own t).2, (s.own t).3);
  }

  module _ (c : Certificate T) (x : T) (r : ℕ) (sound : IsSound equivalent c)
      (fresh : lookup r c.msgs ≡ none) (pending : c.complete ≡ false) where
    note_larger-IsSound :
        (i : ℕ) (m : T) (class : ClassInfo)
        → get_elem? c.classes i ≡ some class
        → lookup class.representative ((r, x) ∷ c.msgs) ≡ some m
        → equivalent m x ≡ true
        → IsSound equivalent (
            note_larger
              (record c { msgs = (r, x) ∷ c.msgs; classes = modify c.classes i enlarge })
              i
              (class.size + 1))
    unfolding note_larger
    note_larger-IsSound i m class at look fits =
        elim (Bool-cases (ltb c.size_of_best_class (class.size + 1))) [
          | inl larger ↦ rw larger (record {
            counted = counted;
            best = (enlarge class, get-enlarge_self equivalent i c.classes class at, omega arith);
            own = own;
          })
          | inr no_larger ↦ rw no_larger (record {
            counted = counted;
            best = BestHolds-modify equivalent c.best_class i _ c.classes sound.best;
            own = own;
          })
        ]
      where
        counted :
            Counted equivalent
              (slack c.has_trusted_self_class)
              ((r, x) ∷ c.msgs)
              (modify c.classes i enlarge)
        counted =
            Counted-grow equivalent _ r i x m c.msgs class c.classes fresh sound.counted at look
              fits

        own :
            c.has_trusted_self_class ≡ true
            → (is_some (lookup c.self_id ((r, x) ∷ c.msgs)) ≡ true)
              × (0 < length (modify c.classes i enlarge))
              × (c.self_trust ≡ true)
              × Headed equivalent c.self_id (modify c.classes i enlarge)
        own t = (
          own-store c x r (sound.own t).0,
          omega (arith, length-modify c.classes i enlarge, (sound.own t).1),
          (sound.own t).2,
          Headed-modify equivalent c.self_id i c.classes (sound.own t).3,
        )

    note_larger-complete :
        (d : Certificate T) (i size : ℕ) → (note_larger d i size).complete ≡ d.complete
    unfolding note_larger
    note_larger-complete d i size = ground arith

    pub grow_class-Keeps :
        (i : ℕ) (m : T) (class : ClassInfo)
        → get_elem? c.classes i ≡ some class
        → lookup class.representative ((r, x) ∷ c.msgs) ≡ some m
        → equivalent m x ≡ true
        → Keeps equivalent (grow_class (store c x r) i)
    unfolding grow_class
    grow_class-Keeps i m class at look fits = (
      _,
      rw at refl,
      finish_class-IsValid equivalent _ i (note_larger-IsSound i m class at look fits)
          (note_larger-complete _ i (class.size + 1) ∙ pending),
    )

    Counted-one :
        equivalent x x ≡ true
        → (classes : List ClassInfo)
        → Counted equivalent (slack c.has_trusted_self_class) c.msgs classes
        → Counted equivalent
            (slack c.has_trusted_self_class)
            ((r, x) ∷ c.msgs)
            (classes ++ record { size = 1; representative = r } ∷ [])
    Counted-one refl_x [] h = ((x, rw (eq→== r r refl), rw refl_x (omega arith)), tt)
    Counted-one refl_x (class ∷ rest) (first, h) = (
      (Counted-store equivalent _ r x c.msgs (class ∷ []) fresh (first, tt)).0,
      Counted-one refl_x rest h,
    )

    opened : Option ℕ → Certificate T
    opened best = elim best [
      | none ↦ record c {
        msgs = (r, x) ∷ c.msgs;
        classes = c.classes ++ record { size = 1; representative = r } ∷ [];
        best_class = some (length c.classes);
        size_of_best_class = 1;
      }
      | some i ↦ record c {
        msgs = (r, x) ∷ c.msgs;
        classes = c.classes ++ record { size = 1; representative = r } ∷ [];
      }
    ]

    opened-IsSound :
        equivalent x x ≡ true
        → c.has_trusted_self_class ≡ false
        → (best : Option ℕ) → c.best_class ≡ best
        → IsSound equivalent (opened best)
    unfolding opened
    opened-IsSound refl_x distrust none e = record {
      counted = Counted-one refl_x c.classes sound.counted;
      best =
          (record { size = 1; representative = r }, get_elem?-append_last c.classes _, omega arith);
      own = λ t. absurd (cc (t, distrust));
    }
    opened-IsSound refl_x distrust (some i) e = record {
      counted = Counted-one refl_x c.classes sound.counted;
      best =
          let (class, at, le) = (rw e at sound.best) in
          rw e (class, get_elem?-append c.classes _ i class at, le);
      own = λ t. absurd (cc (t, distrust));
    }

    opened-pending : (best : Option ℕ) → (opened best).complete ≡ false
    unfolding opened
    opened-pending none = pending
    opened-pending (some i) = pending

    pub new_class-IsValid :
        equivalent x x ≡ true
        → c.has_trusted_self_class ≡ false
        → IsValid equivalent (new_class (store c x r) r)
    unfolding new_class opened
    new_class-IsValid refl_x distrust = elim (Bool-cases (leb c.num_of_reps (length c.classes))) [
      | inl full ↦ rw full (pending-IsValid equivalent _ (store-IsSound c x r sound fresh) pending)
      | inr room ↦ rw room (
          pending-IsValid equivalent (opened c.best_class)
            (opened-IsSound refl_x distrust c.best_class refl) (opened-pending c.best_class))
    ]

    stored-Counted : Counted equivalent (slack c.has_trusted_self_class) ((r, x) ∷ c.msgs) c.classes
    stored-Counted = Counted-store equivalent _ r x c.msgs c.classes fresh sound.counted

    add_to_trusted-Keeps :
        c.has_trusted_self_class ≡ true
        → Keeps equivalent (add_to_trusted equivalent (store c x r) x)
    unfolding add_to_trusted
    add_to_trusted-Keeps trusted =
        let (class, at) = get_elem?_lt c.classes 0 (sound.own trusted).1 in
        let (m, look, _) =
          Counted-get equivalent (slack c.has_trusted_self_class) ((r, x) ∷ c.msgs) c.classes 0
            class stored-Counted at in
        rw (at, look)
          (if-Keeps equivalent (equivalent m x) _ _
            (λ fits. grow_class-Keeps 0 m class at look fits)
            (λ _. (
              store c x r,
              refl,
              pending-IsValid equivalent _ (store-IsSound c x r sound fresh) pending,
            )))

    add_to_found-Keeps :
        equivalent x x ≡ true
        → c.has_trusted_self_class ≡ false
        → (found : Option (Option ℕ)) → Finds equivalent ((r, x) ∷ c.msgs) x c.classes 0 found
        → Keeps equivalent (found >>= add_to_class equivalent (store c x r) r)
    add_to_found-Keeps refl_x distrust found (inl e) =
        rw e (new_class (store c x r) r, refl, new_class-IsValid refl_x distrust)
    add_to_found-Keeps refl_x distrust found (inr (i, class, m, e, at, look, fits)) =
        rw (e, zero-add i) (grow_class-Keeps i m class at look fits)

    -- Storing a new replica's message and filing it by `addPeerMsg` meets no fault and keeps the
    -- invariant.
    pub add_peer_msg-Keeps :
        equivalent x x ≡ true → Keeps equivalent (add_peer_msg equivalent (store c x r) x r)
    unfolding add_peer_msg
    add_peer_msg-Keeps refl_x =
        if-Keeps equivalent c.has_trusted_self_class _ _ add_to_trusted-Keeps (λ distrust.
          add_to_found-Keeps refl_x distrust _ (
            find_class-Finds equivalent _ x c.classes 0 (
              Counted-Found equivalent (slack c.has_trusted_self_class) ((r, x) ∷ c.msgs) c.classes
                stored-Counted)))
