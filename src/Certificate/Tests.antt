-- ===== src/Certificate/Tests.antt =====
-- Runs of MsgsCertificate.hpp over numbers as messages, and instances of its theorems.
use concord_rcanopus.Base.{
  ℕ, ◌≤◌, ◌≡◌, refl, Bool, true, false, none, some, [], ◌∷◌, arith, ◌==◌, ==→eq, eq→==, ◌⊎◌, ◌∙◌,
  sym,
}
use concord_rcanopus.Certificate.{
  Config, Certificate, lookup, make, is_complete, best_correct_msg, reset_and_free, new_class,
  find_class, add_peer_msg, head_own_class, add_self_msg, classify, add_msg, add_all,
}
use concord_rcanopus.Certificate.Support.{support}
use concord_rcanopus.Certificate.Invariant.{IsValid}
use concord_rcanopus.Certificate.Own.{IsEquivalence}
use concord_rcanopus.Certificate.Adding.{Added, add_msg-Added}
use concord_rcanopus.Certificate.Quorum.{HasQuorum, add_all-quorum}
use concord_rcanopus.Certificate.Complete.{add_all_complete}
use concord_rcanopus.Certificate.Best.{best_correct_msg-supported, reset_and_free-make}
use concord_rcanopus.Certificate.Twice.{own_message_counts_twice}

-- Four replicas, one fault: three messages are required.
abbrev four : Config
four = record {
  self_trust = true;
  self_is_required = true;
  num_of_reps = 4;
  max_fails = 1;
  required = 3;
  self_id = 0;
}

same : IsEquivalence ◌==◌
same = record {
  reflexive = λ x. eq→== x x refl;
  transfers = λ m x y e e'. eq→== x y (sym (==→eq m x e) ∙ ==→eq m y e');
}

abbrev one_peer : Certificate ℕ
one_peer = record {
  config = four;
  msgs = (1, 7) ∷ [];
  classes = record { size = 1; representative = 1 } ∷ [];
  complete = false;
  best_class = some 0;
  size_of_best_class = 1;
  has_trusted_self_class = false;
}

one_peer_stored : add_all ◌==◌ (make four) ((7, 1) ∷ []) ≡ some one_peer
unfolding add_all add_msg make classify add_peer_msg find_class new_class
one_peer_stored = refl

one_peer-IsValid : IsValid ◌==◌ one_peer
one_peer-IsValid = record {
  sound = record {
    counted = ((7, refl, omega arith), tt);
    best = (record { size = 1; representative = 1 }, refl, omega arith);
    own = λ t. absurd (cc t);
  };
  done = λ d. absurd (cc d);
}

abbrev two_stored : Certificate ℕ
two_stored = record {
  config = four;
  msgs = (0, 7) ∷ (1, 7) ∷ [];
  classes = record { size = 3; representative = 0 } ∷ [];
  complete = true;
  best_class = some 0;
  size_of_best_class = 3;
  has_trusted_self_class = true;
}

two_stored-IsValid : IsValid ◌==◌ two_stored
two_stored-IsValid = record {
  sound = record {
    counted = ((7, refl, omega arith), tt);
    best = (record { size = 3; representative = 0 }, refl, omega arith);
    own = λ t. (refl, omega arith, refl, (refl, tt));
  };
  done = λ d. (refl, omega arith, λ needed. refl);
}

-- With the replica's own message second, two messages make a certificate that requires three.
complete_with_two : add_all ◌==◌ (make four) ((7, 1) ∷ (7, 0) ∷ []) ≡ some two_stored
unfolding add_all add_msg make classify add_peer_msg find_class new_class add_self_msg
    head_own_class
complete_with_two = refl

-- A second message of one replica is refused.
repeated : add_msg ◌==◌ one_peer 8 1 ≡ some (one_peer, false)
unfolding add_msg
repeated = refl

add_msg-Added_example :
    (c' : Certificate ℕ) × (accepted : Bool) × (add_msg ◌==◌ one_peer 7 2 ≡ some (c', accepted))
    × Added ◌==◌ one_peer 7 2 c' accepted
add_msg-Added_example = add_msg-Added ◌==◌ one_peer 7 2 same one_peer-IsValid

add_all-quorum_example :
    (c : Certificate ℕ) × (add_all ◌==◌ (make four) ((7, 1) ∷ (7, 2) ∷ (7, 0) ∷ []) ≡ some c)
    × (is_complete c ≡ true → HasQuorum ◌==◌ four c)
add_all-quorum_example = add_all-quorum ◌==◌ four ((7, 1) ∷ (7, 2) ∷ (7, 0) ∷ []) same

best_correct_msg-supported_example :
    ((two_stored.has_trusted_self_class ≡ true)
      × ((m : ℕ) × (best_correct_msg two_stored ≡ some (some m))
          × (lookup 0 two_stored.msgs ≡ some m)))
    ⊎ ((two_stored.has_trusted_self_class ≡ false)
        × (((3 ≤ 1) × (best_correct_msg two_stored ≡ some none))
            ⊎ ((r : ℕ) × (m : ℕ) × (best_correct_msg two_stored ≡ some (some m))
                × (lookup r two_stored.msgs ≡ some m)
                × (2 ≤ support ◌==◌ m two_stored.msgs))))
best_correct_msg-supported_example = best_correct_msg-supported ◌==◌ two_stored two_stored-IsValid

reset_and_free-make_example : reset_and_free one_peer ≡ make four
reset_and_free-make_example = reset_and_free-make ◌==◌ one_peer one_peer-IsValid

own_message_counts_twice_example :
    (c : Certificate ℕ) × (add_all ◌==◌ (make four) ((7, 1) ∷ (7, 0) ∷ []) ≡ some c)
    × (is_complete c ≡ true)
own_message_counts_twice_example =
    own_message_counts_twice ◌==◌ four 7 ((7, 1) ∷ []) 7 same refl (omega arith) (refl, tt)
      (refl, tt) refl refl (omega arith) refl

add_all_complete_example :
    (c : Certificate ℕ) × (add_all ◌==◌ (make four) ((7, 1) ∷ (7, 0) ∷ (7, 3) ∷ []) ≡ some c)
    × (is_complete c ≡ true)
add_all_complete_example =
    add_all_complete ◌==◌ four 7 ((7, 1) ∷ (7, 0) ∷ (7, 3) ∷ []) same (omega arith) (omega arith)
      (refl, (refl, (refl, tt))) (refl, (refl, (refl, tt))) (omega arith) refl
