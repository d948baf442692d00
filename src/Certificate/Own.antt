-- ===== src/Certificate/Own.antt =====
-- `addSelfMsg` keeps the invariant.
use native.Mathlib.Nat.{zero-add}
use concord_rcanopus.Base.{
  ℕ, ◌+◌, ◌≤◌, ◌≡◌, refl, ap, Bool, true, false, Option, none, some, [], ◌∷◌, arith, leb, eq→==,
  Bool-cases, inl, inr,
}
use concord_rcanopus.Certificate.{
  Certificate, MsgMap, lookup, find_class, own_class_size, head_own_class, add_self_msg,
}
use concord_rcanopus.Certificate.Support.{support, Finds, find_class-Finds}
use concord_rcanopus.Certificate.Invariant.{
  slack, Counted, IsSound, IsValid, Counted-Found, Counted-store, get-enlarge_self,
  try_to_mark_complete-IsValid, Keeps, Counted-get, lookup-store, pending-IsValid,
}
use concord_rcanopus.Certificate.Peer.{store}

module _ {T : Type 0} (equivalent : T → T → Bool) where
  -- Equivalence of messages is an equivalence relation, as far as the certificate relies on it.
  pub record IsEquivalence : Type 0 where
    pub reflexive : (x : T) → equivalent x x ≡ true
    pub transfers :
        (m x y : T) → equivalent m x ≡ true → equivalent m y ≡ true → equivalent x y ≡ true

  -- A message has all the support of the messages that are equivalent to it.
  support-transfers :
      (m x : T) (msgs : MsgMap T)
      → IsEquivalence
      → equivalent m x ≡ true
      → support equivalent m msgs ≤ support equivalent x msgs
  support-transfers m x [] eq fits = omega arith
  support-transfers m x ((r, y) ∷ rest) eq fits =
      ground (arith, support-transfers m x rest eq fits, eq.transfers m x y)

  module _ (c : Certificate T) (x : T) (sound : IsSound equivalent c)
      (fresh : lookup c.self_id c.msgs ≡ none) (pending : c.complete ≡ false) (eq : IsEquivalence)
      (trust : c.self_trust ≡ true) where
    untrusted : c.has_trusted_self_class ≡ false
    untrusted = elim (Bool-cases c.has_trusted_self_class) [
      | inl t ↦ absurd (cc (fresh, (sound.own t).0))
      | inr u ↦ u
    ]

    -- The class that the own message heads, of a size that its support nearly reaches.
    head_own_class-IsValid :
        (size : ℕ)
        → size ≤ support equivalent x c.msgs + 2
        → IsValid equivalent (head_own_class equivalent (store c x c.self_id) size)
    unfolding head_own_class
    head_own_class-IsValid size le = elim (Bool-cases (leb c.required size)) [
      | inl large ↦
          rw large
            (try_to_mark_complete-IsValid equivalent own own_sound pending refl (ground arith))
      | inr small ↦ rw small (pending-IsValid equivalent own own_sound pending)
    ]
      where
        own : Certificate T
        own = record c {
          msgs = (c.self_id, x) ∷ c.msgs;
          classes = record { size = size; representative = c.self_id } ∷ [];
          best_class = some 0;
          size_of_best_class = size;
          has_trusted_self_class = true;
        }

        look : lookup c.self_id ((c.self_id, x) ∷ c.msgs) ≡ some x
        look = rw (eq→== c.self_id c.self_id refl)

        own_sound : IsSound equivalent own
        own_sound = record {
          counted = ((x, look, rw (eq.reflexive x) (omega (arith, le))), tt);
          best = (record { size = size; representative = c.self_id }, refl, omega arith);
          own = λ _. (rw look, omega arith, trust, (refl, tt));
        }

    stored-Counted :
        Counted equivalent (slack c.has_trusted_self_class) ((c.self_id, x) ∷ c.msgs) c.classes
    stored-Counted = Counted-store equivalent _ c.self_id x c.msgs c.classes fresh sound.counted

    found_size :
        (found : Option (Option ℕ))
        → Finds equivalent ((c.self_id, x) ∷ c.msgs) x c.classes 0 found
        → (relevant : Option ℕ) × (size : ℕ) × (found ≡ some relevant)
          × (own_class_size equivalent (store c x c.self_id) relevant ≡ some size)
          × (size ≤ support equivalent x c.msgs + 2)
    found_size found (inl e) = (none, 1, e, refl, omega arith)
    found_size found (inr (i, class, m, e, at, look, fits)) =
        let enlarged = get-enlarge_self equivalent i c.classes class at in
        let (m', look', le) =
          Counted-get equivalent (slack c.has_trusted_self_class) c.msgs c.classes i class
            sound.counted at in
        let stored =
          lookup-store equivalent c.self_id class.representative x m' c.msgs fresh look' in
        let same : m' ≡ m = cc (look, stored) in
        let fits' : equivalent m' x ≡ true = rw same fits in
        let transferred = support-transfers m' x c.msgs eq fits' in
        let none_double : slack c.has_trusted_self_class ≡ 0 = ap slack untrusted in
        (
          some i,
          class.size + 1 + 1,
          rw (← zero-add i) e,
          rw enlarged,
          omega (arith, le, transferred, none_double),
        )

    -- Storing the replica's own message and filing it by `addSelfMsg` meets no fault and keeps the
    -- invariant.
    pub add_self_msg-Keeps : Keeps equivalent (add_self_msg equivalent (store c x c.self_id) x)
    unfolding add_self_msg
    add_self_msg-Keeps =
        let (relevant, size, found, sized, le) =
          found_size (find_class equivalent ((c.self_id, x) ∷ c.msgs) x c.classes 0) (
            find_class-Finds equivalent ((c.self_id, x) ∷ c.msgs) x c.classes 0 (
              Counted-Found equivalent (slack c.has_trusted_self_class) ((c.self_id, x) ∷ c.msgs)
                c.classes stored-Counted)) in
        rw (found, sized)
          (
            head_own_class equivalent (store c x c.self_id) size,
            refl,
            head_own_class-IsValid size le,
          )
