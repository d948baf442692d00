-- ===== src/Checkpoint/Messages.antt =====
-- CheckpointMsg: the checks of a received message, and copies.
use concord_rcanopus.Base.{
  ℕ, zero, suc, ◌%◌, ◌≤◌, ◌≡◌, refl, ap, Bool, true, false, not, ◌&&◌, ◌||◌, Option, none, some,
  arith, ltb, ◌==◌, if◌then◌else◌, not_lt→ltb, eq→==, ne→==, ==→eq,
}
use concord_rcanopus.Replicas
use concord_rcanopus.ViewChange.Restrictions.{checkpoint_window_size}
use concord_rcanopus.Checkpoint.{
  CheckpointMsg, make_msg, is_stable_state, clone, size_of_header, checkpoint_code,
  to_actual_msg_type,
}

-- The tests of `ToActualMsgType` are false together exactly for a message that is large enough, comes
-- from a peer of the group, is for a checkpoint's sequence number and has a digest.
pub record IsAcceptable (info : Replicas.ReplicasInfo) (size : ℕ) (m : CheckpointMsg) : Type 0 where
  pub large : size_of_header ≤ size
  pub from_peer : Replicas.is_id_of_peer_replica info m.sender_id ≡ true
  pub on_checkpoint : m.seq_num % checkpoint_window_size ≡ 0
  pub has_digest : 1 ≤ m.state_digest

abbrev rejects : Bool → Bool → Bool → Bool → Bool → Bool
rejects small me in_group on_grid no_digest =
    small || me || not in_group || not on_grid || no_digest

abbrev AllPass : Bool → Bool → Bool → Bool → Bool → Type 0
AllPass small me in_group on_grid no_digest =
    (small ≡ false) × (me ≡ false) × (in_group ≡ true) × (on_grid ≡ true) × (no_digest ≡ false)

all_pass : (a b c d e : Bool) → rejects a b c d e ≡ false → AllPass a b c d e
all_pass true b c d e h = absurd (cc h)
all_pass false true c d e h = absurd (cc h)
all_pass false false false d e h = absurd (cc h)
all_pass false false true false e h = absurd (cc h)
all_pass false false true true true h = absurd (cc h)
all_pass false false true true false h = (refl, refl, refl, refl, refl)

chosen :
    (b : Bool) (m : CheckpointMsg) → some (if b then none else some m) ≡ some (some m) → b ≡ false
chosen true m h = absurd (never m (unwrap none (some m) h))
  where
    unwrap : (x y : Option CheckpointMsg) → some x ≡ some y → x ≡ y
    unwrap x y e = cc e

    never : (m : CheckpointMsg) → none ≡ some m → ⊥
    never m e = cc e
chosen false m h = refl

peer : (inside me : Bool) → inside ≡ true → me ≡ false → inside && not me ≡ true
peer true false i n = refl
peer true true i n = absurd (cc n)
peer false me i n = absurd (cc i)

peer_parts : (inside me : Bool) → inside && not me ≡ true → (inside ≡ true) × (me ≡ false)
peer_parts true false h = (refl, refl)
peer_parts true true h = absurd (cc h)
peer_parts false me h = absurd (cc h)

not_below : (a b : ℕ) → ltb a b ≡ false → b ≤ a
not_below a b h = ground arith

digest_nonzero : (d : ℕ) → (d == 0) ≡ false → 1 ≤ d
digest_nonzero zero h = absurd (cc h)
digest_nonzero (suc d) h = omega arith

-- A message of the checkpoint type is accepted exactly when it is large enough for the header, its
-- sender is another replica of the group, its sequence number is a multiple of the checkpoint window
-- and its state digest is not zero.
pub to_actual_msg_type-IsAcceptable :
    (info : Replicas.ReplicasInfo) (size : ℕ) (m : CheckpointMsg)
    → (to_actual_msg_type info checkpoint_code size m ≡ some (some m) → IsAcceptable info size m)
      × (IsAcceptable info size m → to_actual_msg_type info checkpoint_code size m ≡ some (some m))
unfolding to_actual_msg_type Replicas.is_id_of_replica Replicas.is_id_of_peer_replica
to_actual_msg_type-IsAcceptable info size m = (
  (λ h.
      let (large, other, inside, grid, digest) =
        all_pass (ltb size 43) (m.sender_id == info.my_id) (ltb m.sender_id info.number_of_replicas)
          (m.seq_num % 150 == 0) (m.state_digest == 0) (chosen _ m h) in
      record {
        large = not_below size 43 large;
        from_peer = peer _ _ inside other;
        on_checkpoint = ==→eq (m.seq_num % 150) 0 grid;
        has_digest = digest_nonzero m.state_digest digest;
      }),
  (λ ok.
      let (inside, other) =
        peer_parts (ltb m.sender_id info.number_of_replicas) (m.sender_id == info.my_id)
          ok.from_peer in
      rw
        (
          not_lt→ltb size 43 (omega (arith, ok.large)),
          other,
          inside,
          eq→== (m.seq_num % 150) 0 ok.on_checkpoint,
          ne→== m.state_digest 0 (omega (arith, ok.has_digest)),
        )
        refl),
)

stable_made :
    (sender seq digest : ℕ) (b : Bool) → is_stable_state (make_msg sender seq digest b) ≡ b
unfolding is_stable_state make_msg
stable_made sender seq digest true = refl
stable_made sender seq digest false = refl

stable_clone : (m : CheckpointMsg) → is_stable_state (clone m) ≡ is_stable_state m
unfolding clone
stable_clone m = stable_made m.sender_id m.seq_num m.state_digest (is_stable_state m)

-- A copy has the sender, sequence number, digest and stability of the message, and copying again
-- changes nothing.
pub clone_lem :
    (m : CheckpointMsg)
    → ((clone m).sender_id ≡ m.sender_id)
      × ((clone m).seq_num ≡ m.seq_num)
      × ((clone m).state_digest ≡ m.state_digest)
      × (is_stable_state (clone m) ≡ is_stable_state m)
      × (clone (clone m) ≡ clone m)
unfolding clone make_msg
clone_lem m = (
  refl,
  refl,
  refl,
  stable_clone m,
  ap (λ b. make_msg m.sender_id m.seq_num m.state_digest b) (stable_clone m),
)
