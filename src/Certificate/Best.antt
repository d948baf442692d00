-- ===== src/Certificate/Best.antt =====
-- `bestCorrectMsg` and `resetAndFree`.
use concord_rcanopus.Base.{
  ℕ, ◌+◌, ◌≤◌, ◌<◌, ◌≡◌, refl, ap, Bool, true, false, Option, none, some, List, [], ◌∷◌, arith, leb,
  length, get_elem?, Bool-cases, ◌⊎◌, inl, inr,
}
use concord_rcanopus.Certificate.{
  Certificate, ClassInfo, MsgMap, lookup, make, reset_and_free, best_correct_msg,
}
use concord_rcanopus.Certificate.Support.{support}
use concord_rcanopus.Certificate.Invariant.{
  Headed-get, slack, BestHolds, Counted, IsSound, IsValid, Counted-get,
}

module _ {T : Type 0} (equivalent : T → T → Bool) where
  best_held :
      (best : Option ℕ) (classes : List ClassInfo) (size : ℕ)
      → BestHolds best classes size
      → (0 < length classes) ⊎ (0 < size)
      → (i : ℕ) × (class : ClassInfo) × (best ≡ some i)
        × (get_elem? classes i ≡ some class)
        × (size ≤ class.size)
  best_held none classes size (e, e') (inl h) = absurd (omega (arith, ap length e))
  best_held none classes size (e, e') (inr h) = absurd (omega arith)
  best_held (some i) classes size (class, at, le) h = (i, class, refl, at, le)

  -- On a valid certificate `bestCorrectMsg` meets no fault. Where the replica's own message is
  -- trusted it returns that message; where it is not, it returns no message when the best class has
  -- `maxFails` members at most, and otherwise a stored one to which more than `maxFails` stored
  -- messages are equivalent.
  pub best_correct_msg-supported :
      (c : Certificate T)
      → IsValid equivalent c
      → ((c.has_trusted_self_class ≡ true)
          × ((m : T) × (best_correct_msg c ≡ some (some m)) × (lookup c.self_id c.msgs ≡ some m)))
        ⊎ ((c.has_trusted_self_class ≡ false)
            × (((c.size_of_best_class ≤ c.max_fails) × (best_correct_msg c ≡ some none))
                ⊎ ((r : ℕ) × (m : T) × (best_correct_msg c ≡ some (some m))
                    × (lookup r c.msgs ≡ some m)
                    × (c.max_fails + 1 ≤ support equivalent m c.msgs))))
  unfolding best_correct_msg
  best_correct_msg-supported c valid = elim (Bool-cases c.has_trusted_self_class) [
    | inl trusted ↦
        let (sent, some_class, trust, headed) = valid.sound.own trusted in
        let (i, class, e, at, (m, look, le)) = best_message c valid (inl some_class) in
        let own = Headed-get equivalent c.self_id i c.classes class headed at in
        inl (trusted, (m, rw (trusted, e, at, look) refl, rw own at look))
    | inr untrusted ↦ elim (Bool-cases (leb (c.max_fails + 1) c.size_of_best_class)) [
      | inr few ↦ inr (untrusted, inl (ground arith, rw (untrusted, few) refl))
      | inl many ↦
          let (i, class, e, at, (m, look, le)) = best_message c valid (inr (ground arith)) in
          let none_double : slack c.has_trusted_self_class ≡ 0 = ap slack untrusted in
          inr (
            untrusted,
            inr (
              class.representative,
              m,
              rw (untrusted, many, e, at, look) refl,
              look,
              ground arith,
            ),
          )
    ]
  ]
    where
      best_message :
          (c : Certificate T)
          → IsValid equivalent c
          → (0 < length c.classes) ⊎ (0 < c.size_of_best_class)
          → (i : ℕ) × (class : ClassInfo) × (c.best_class ≡ some i)
            × (get_elem? c.classes i ≡ some class)
            × ((m : T) × (lookup class.representative c.msgs ≡ some m)
                × (c.size_of_best_class
                    ≤ support equivalent m c.msgs + slack c.has_trusted_self_class))
      best_message c valid nonempty =
          let (i, class, e, at, le) =
            best_held c.best_class c.classes c.size_of_best_class valid.sound.best nonempty in
          let (m, look, counted) =
            Counted-get equivalent (slack c.has_trusted_self_class) c.msgs c.classes i class
              valid.sound.counted at in
          (i, class, e, at, (m, look, omega (arith, le, counted)))

  list_cases :
      (msgs : MsgMap T) → (msgs ≡ []) ⊎ ((m : ℕ × T) × (rest : MsgMap T) × (msgs ≡ m ∷ rest))
  list_cases [] = inl refl
  list_cases (m ∷ rest) = inr (m, rest, refl)

  unsent :
      (extra : ℕ) (msgs : MsgMap T) (classes : List ClassInfo)
      → msgs ≡ []
      → Counted equivalent extra msgs classes
      → classes ≡ []
  unsent extra msgs [] e h = refl
  unsent extra msgs (class ∷ rest) e ((m, look, _), _) =
      absurd (cc (look, ap (lookup class.representative) e))

  unbest :
      (best : Option ℕ) (classes : List ClassInfo) (size : ℕ)
      → classes ≡ []
      → BestHolds best classes size
      → (best ≡ none) × (size ≡ 0)
  unbest none classes size e (_, e') = (refl, e')
  unbest (some i) classes size e (class, at, _) =
      absurd (cc (at, ap (λ (xs : List ClassInfo). get_elem? xs i) e))

  untrusted :
      (c : Certificate T) → IsSound equivalent c → c.classes ≡ [] → c.has_trusted_self_class ≡ false
  untrusted c sound e = elim (Bool-cases c.has_trusted_self_class) [
    | inl t ↦ absurd (omega (arith, ap length e, (sound.own t).1))
    | inr u ↦ u
  ]

  -- Emptying a valid certificate gives the certificate that the constructor makes.
  pub reset_and_free-make :
      (c : Certificate T) → IsValid equivalent c → reset_and_free c ≡ make c.config
  unfolding reset_and_free make
  reset_and_free-make c valid = elim (list_cases c.msgs) [
    | inl none_sent ↦
        let no_class =
          unsent (slack c.has_trusted_self_class) c.msgs c.classes none_sent valid.sound.counted in
        let (no_best, no_size) =
          unbest c.best_class c.classes c.size_of_best_class no_class valid.sound.best in
        let distrust = untrusted c valid.sound no_class in ground arith
    | inr (m, rest, sent) ↦ ground arith
  ]
