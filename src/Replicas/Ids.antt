-- ===== src/Replicas/Ids.antt =====
-- The sets of replica ids that ReplicasInfo keeps, against its tests of an id.
use concord_rcanopus.Base.{
  ℕ, zero, suc, ◌+◌, ◌*◌, ◌≡◌, inl, inr, refl, sym, ◌∙◌, Bool, true, false, not, ◌&&◌, ◌||◌, some,
  List, [], ◌∷◌, arith, ltb, leb, ◌==◌, eq→==, Bool-cases,
}
use concord_rcanopus.Replicas.{
  ReplicasInfo, generate_set_of_replicas, generate_set_of_peer_replicas, make, is_id_of_replica,
  is_id_of_peer_replica,
}

-- `std::set::count`.
abbrev pub contains : List ℕ → ℕ → Bool
contains [] id = false
contains (x ∷ xs) id = (x == id) || contains xs id

between : ℕ → ℕ → ℕ → Bool
between i k id = leb i id && ltb id (i + k)

between-zero : (i id : ℕ) → between i zero id ≡ false
unfolding between
between-zero i id = ground arith

between-suc : (i k id : ℕ) → between i (suc k) id ≡ (i == id) || between (i + 1) k id
unfolding between
between-suc i k id = ground arith

contains-generate_set_of_replicas :
    (i k id : ℕ) → contains (generate_set_of_replicas i k) id ≡ between i k id
unfolding generate_set_of_replicas
contains-generate_set_of_replicas i zero id = sym (between-zero i id)
contains-generate_set_of_replicas i (suc k) id =
    rw (contains-generate_set_of_replicas (i + 1) k id, between-suc i k id) refl

peer_step : (b x y : Bool) → (b || x) && not y ≡ (b && not y) || (x && not y)
peer_step true true true = refl
peer_step true true false = refl
peer_step true false true = refl
peer_step true false false = refl
peer_step false x y = refl

self_never : (i my id : ℕ) → (i == my) ≡ true → (i == id) && not (id == my) ≡ false
self_never i my id h = ground arith

other_always : (i my id : ℕ) → (i == my) ≡ false → (i == id) && not (id == my) ≡ (i == id)
other_always i my id h = ground arith

contains-generate_set_of_peer_replicas :
    (my i k id : ℕ)
    → contains (generate_set_of_peer_replicas my i k) id ≡ between i k id && not (id == my)
unfolding generate_set_of_peer_replicas
contains-generate_set_of_peer_replicas my i zero id = rw (between-zero i id) refl
contains-generate_set_of_peer_replicas my i (suc k) id = elim (Bool-cases (i == my)) [
  | inl me ↦
      rw
        (
          me,
          contains-generate_set_of_peer_replicas my (i + 1) k id,
          between-suc i k id,
          peer_step (i == id) (between (i + 1) k id) (id == my),
          self_never i my id me,
        )
        refl
  | inr other ↦
      rw
        (
          other,
          contains-generate_set_of_peer_replicas my (i + 1) k id,
          between-suc i k id,
          peer_step (i == id) (between (i + 1) k id) (id == my),
          other_always i my id other,
        )
        refl
]

between_start : (n id : ℕ) → between 0 n id ≡ ltb id n
unfolding between
between_start n id = ground arith

-- What the constructor builds, when its assertion holds: the two sets of ids hold exactly the ids
-- that the two tests accept, and the sizes are as asserted.
pub make-ids :
    (my_id n f c : ℕ) (p e : Bool)
    → n ≡ 3 * f + 2 * c + 1
    → (r : ReplicasInfo) × (make my_id n f c p e ≡ some r)
      × (r.number_of_replicas ≡ 3 * r.f_val + 2 * r.c_val + 1)
      × ((id : ℕ) → contains r.ids_of_replicas id ≡ is_id_of_replica r id)
      × ((id : ℕ) → contains r.ids_of_peer_replicas id ≡ is_id_of_peer_replica r id)
unfolding make is_id_of_replica is_id_of_peer_replica
make-ids my_id n f c p e size = (
  record {
    my_id = my_id;
    number_of_replicas = n;
    f_val = f;
    c_val = c;
    dynamic_collector_for_partial_proofs = p;
    dynamic_collector_for_execution_proofs = e;
    ids_of_replicas = generate_set_of_replicas 0 n;
    ids_of_peer_replicas = generate_set_of_peer_replicas my_id 0 n;
  },
  rw (eq→== n (3 * f + 2 * c + 1) size) refl,
  size,
  (λ id. contains-generate_set_of_replicas 0 n id ∙ between_start n id),
  (λ id. rw (contains-generate_set_of_peer_replicas my_id 0 n id, between_start n id) refl),
)
