-- ===== src/Checkpoint/Stable.antt =====
-- What stands behind a stable checkpoint: CheckpointInfo over the certificate.
use concord_rcanopus.Base.{
  ℕ, length, ◌+◌, ◌*◌, ◌≤◌, ◌≡◌, inl, inr, refl, sym, ap, ◌∙◌, Bool, true, false, ◌&&◌, none, some,
  List, [], ◌∷◌, arith, ◌==◌, eq→==, ==→eq, Option-cases,
}
use concord_rcanopus.Certificate
use concord_rcanopus.Certificate.Support.{support}
use concord_rcanopus.Certificate.Invariant.{IsValid}
use concord_rcanopus.Certificate.Own.{IsEquivalence}
use concord_rcanopus.Certificate.Quorum.{Distinct, add_all-quorum}
use concord_rcanopus.Certificate.Best.{reset_and_free-make}
use concord_rcanopus.Certificate.Waiting.{AllFresh, arrived, AllAgree}
use concord_rcanopus.Certificate.Complete.{add_all_complete}
use concord_rcanopus.Replicas
use concord_rcanopus.Checkpoint.{
  CheckpointMsg, equivalent, CheckpointInfo, make, reset_and_free, add_checkpoint_msg,
  is_checkpoint_certificate_complete, config_of, init, add_checkpoint_msgs, set_self_execution_time,
}

both : (a b : Bool) → a && b ≡ true → (a ≡ true) × (b ≡ true)
both true true h = (refl, refl)
both true false h = absurd (cc h)
both false b h = absurd (cc h)

abbrev pub Agrees : CheckpointMsg → CheckpointMsg → Type 0
Agrees a b = (a.seq_num ≡ b.seq_num) × (a.state_digest ≡ b.state_digest)

pub equivalent→Agrees : (a b : CheckpointMsg) → equivalent a b ≡ true → Agrees a b
unfolding equivalent
equivalent→Agrees a b h =
    let (seq, digest) = both (a.seq_num == b.seq_num) (a.state_digest == b.state_digest) h in
    (==→eq a.seq_num b.seq_num seq, ==→eq a.state_digest b.state_digest digest)

Agrees→equivalent : (a b : CheckpointMsg) → Agrees a b → equivalent a b ≡ true
unfolding equivalent
Agrees→equivalent a b (seq, digest) =
    rw (eq→== a.seq_num b.seq_num seq, eq→== a.state_digest b.state_digest digest) refl

pub equivalent-IsEquivalence : IsEquivalence equivalent
equivalent-IsEquivalence = record {
  reflexive = λ x. Agrees→equivalent x x (refl, refl);
  transfers = λ m x y e e'.
      let (seq, digest) = equivalent→Agrees m x e in
      let (seq', digest') = equivalent→Agrees m y e' in
      Agrees→equivalent x y (sym seq ∙ seq', sym digest ∙ digest');
}

some_inj {ℓ} : {A : Type ℓ} (x y : A) → some x ≡ some y → x ≡ y
some_inj x y e = cc e

never : (c : Certificate.Certificate CheckpointMsg) → none ≡ some c → ⊥
never c e = cc e

-- The run of the checkpoint is the run of its certificate.
abbrev holding : CheckpointInfo → Certificate.Certificate CheckpointMsg → CheckpointInfo
holding i c = record i { checkpoint_certificate = some c }

add_checkpoint_msgs-add_all :
    (i : CheckpointInfo) (c c' : Certificate.Certificate CheckpointMsg)
    (ms : List (CheckpointMsg × ℕ))
    → Certificate.add_all equivalent c ms ≡ some c'
    → add_checkpoint_msgs (holding i c) ms ≡ some (holding i c')
unfolding add_checkpoint_msgs add_checkpoint_msg Certificate.add_all
add_checkpoint_msgs-add_all i c c' [] e = ap (λ d. some (holding i d)) (some_inj c c' e)
add_checkpoint_msgs-add_all i c c' ((msg, r) ∷ rest) e =
    elim (Option-cases (Certificate.add_msg equivalent c msg r)) [
      | inl fault ↦ absurd (never c' (rw fault at e))
      | inr ((d, added), stored) ↦
          rw stored (add_checkpoint_msgs-add_all i d c' rest (rw stored at e))
    ]

-- A checkpoint of a group of the asserted size can be set up, and takes any run of messages without a
-- fault. When its certificate is then complete, there is a stored message such that at least 2F + C
-- of the stored messages, which are of distinct replicas, have its sequence number and state digest,
-- and the own message is among the stored ones.
pub add_checkpoint_msgs-quorum :
    (info : Replicas.ReplicasInfo) (ms : List (CheckpointMsg × ℕ))
    → info.number_of_replicas ≡ 3 * info.f_val + 2 * info.c_val + 1
    → (i : CheckpointInfo) × (j : CheckpointInfo) × (c : Certificate.Certificate CheckpointMsg)
      × (init info make ≡ some i)
      × (add_checkpoint_msgs i ms ≡ some j)
      × (j.checkpoint_certificate ≡ some c)
      × (is_checkpoint_certificate_complete j ≡ some true
          → Distinct c.msgs
            × ((r : ℕ) × (m : CheckpointMsg) × (Certificate.lookup r c.msgs ≡ some m)
                × (2 * info.f_val + info.c_val ≤ support equivalent m c.msgs))
            × (Certificate.is_some (Certificate.lookup info.my_id c.msgs) ≡ true))
unfolding init config_of is_checkpoint_certificate_complete
add_checkpoint_msgs-quorum info ms size =
    let cfg = config_of info in
    let (c, runs, done) = add_all-quorum equivalent cfg ms equivalent-IsEquivalence in
    let i = holding make (Certificate.make cfg) in
    (
      i,
      holding make c,
      c,
      rw (eq→== info.number_of_replicas (3 * info.f_val + 2 * info.c_val + 1) size) refl,
      add_checkpoint_msgs-add_all make (Certificate.make cfg) c ms runs,
      refl,
      (λ complete.
          let (distinct, (r, m, look, large), own) =
            done (some_inj (Certificate.is_complete c) true complete) in
          (distinct, (r, m, look, omega (arith, large)), own refl)),
    )

-- Resetting a checkpoint whose certificate is valid succeeds, and leaves what the setup makes, so
-- that an execution time can be set again.
pub reset_and_free-init :
    (info : Replicas.ReplicasInfo) (c : Certificate.Certificate CheckpointMsg) (i : CheckpointInfo)
    → info.number_of_replicas ≡ 3 * info.f_val + 2 * info.c_val + 1
    → IsValid equivalent c
    → c.config ≡ config_of info
    → i.checkpoint_certificate ≡ some c
    → (j : CheckpointInfo) × (reset_and_free i ≡ some j)
      × (init info make ≡ some j)
      × ((t : ℕ) → set_self_execution_time j t ≡ some (record j { executed = t }))
unfolding reset_and_free init set_self_execution_time
reset_and_free-init info c i size valid config held = (
  holding make (Certificate.make (config_of info)),
  rw (held, reset_and_free-make equivalent c valid, config) refl,
  rw (eq→== info.number_of_replicas (3 * info.f_val + 2 * info.c_val + 1) size) refl,
  (λ t. refl),
)

-- In a group of the asserted size, more than one replica large, a checkpoint becomes stable: when
-- checkpoint messages with the same sequence number and state digest come from distinct replicas,
-- the own one among them, and are at least 2F + C + 1, then a new checkpoint takes them in any order
-- without a fault and its certificate is complete in the end.
pub add_checkpoint_msgs_complete :
    (info : Replicas.ReplicasInfo) (m : CheckpointMsg) (ms : List (CheckpointMsg × ℕ))
    → info.number_of_replicas ≡ 3 * info.f_val + 2 * info.c_val + 1
    → 1 ≤ info.f_val + info.c_val
    → AllFresh equivalent (config_of info) m [] ms
    → AllAgree equivalent (config_of info) m ms
    → 2 * info.f_val + info.c_val + 1 ≤ length ms
    → Certificate.is_some
        (Certificate.lookup info.my_id (arrived equivalent (config_of info) m [] ms))
      ≡ true
    → (i : CheckpointInfo) × (j : CheckpointInfo) × (init info make ≡ some i)
      × (add_checkpoint_msgs i ms ≡ some j)
      × (is_checkpoint_certificate_complete j ≡ some true)
unfolding init config_of is_checkpoint_certificate_complete
add_checkpoint_msgs_complete info m ms size several fresh agree enough own =
    let cfg = config_of info in
    let (c, runs, done) =
      add_all_complete equivalent cfg m ms equivalent-IsEquivalence (omega arith) (omega arith)
        fresh agree enough own in
    (
      holding make (Certificate.make cfg),
      holding make c,
      rw (eq→== info.number_of_replicas (3 * info.f_val + 2 * info.c_val + 1) size) refl,
      add_checkpoint_msgs-add_all make (Certificate.make cfg) c ms runs,
      ap some done,
    )
