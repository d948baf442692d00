-- ===== src/Replicas/Tests.antt =====
-- Runs of ReplicasInfo at small groups.
use concord_rcanopus.Base.{
  ◌≤◌, ℕ, ◌+◌, ◌*◌, ◌≡◌, ◌≢◌, ◌<◌, ◌⊎◌, refl, true, false, ◌||◌, some, [], ◌∷◌, arith, ◌==◌,
}
use concord_rcanopus.Replicas.{
  ReplicasInfo, make, get_collectors_for, primary_of_view, is_id_of_replica, is_id_of_peer_replica,
  generate_set_of_replicas, ignore_primary, generate_set_of_peer_replicas,
}
use concord_rcanopus.Replicas.Collectors.{get_collectors_for-lem}
use concord_rcanopus.Replicas.Ids.{contains, make-ids}

abbrev six : ReplicasInfo
six = record {
  my_id = 4;
  number_of_replicas = 6;
  f_val = 1;
  c_val = 1;
  dynamic_collector_for_partial_proofs = true;
  dynamic_collector_for_execution_proofs = false;
  ids_of_replicas = 0 ∷ 1 ∷ 2 ∷ 3 ∷ 4 ∷ 5 ∷ [];
  ids_of_peer_replicas = 0 ∷ 1 ∷ 2 ∷ 3 ∷ 5 ∷ [];
}

made_six : make 4 6 1 1 true false ≡ some six
unfolding make generate_set_of_replicas generate_set_of_peer_replicas
made_six = refl

-- The collectors wrap around the ring past the primary.
wraps : get_collectors_for six 3 6 5 ≡ (true, 3 ∷ 1 ∷ [])
unfolding get_collectors_for ignore_primary primary_of_view
wraps = refl

get_collectors_for-lem_example :
    ((six.c_val ≡ 0)
      × ((d : ℕ) × (get_collectors_for six 3 6 5 ≡ (d == 3, d ∷ []))
          × (d < 6)
          × (d ≢ primary_of_view six 6)))
    ⊎ ((1 ≤ six.c_val)
        × ((d : ℕ) × ((e : ℕ) × (get_collectors_for six 3 6 5 ≡ ((d == 3) || (e == 3), d ∷ e ∷ []))
              × (d ≢ e)
              × (d < 6)
              × (d ≢ primary_of_view six 6)
              × (e < 6)
              × (e ≢ primary_of_view six 6))))
get_collectors_for-lem_example =
    get_collectors_for-lem six 3 6 5 (record { size = refl; more_than_one = omega arith }) refl

make-ids_example :
    (r : ReplicasInfo) × (make 4 6 1 1 true false ≡ some r)
    × (r.number_of_replicas ≡ 3 * r.f_val + 2 * r.c_val + 1)
    × ((id : ℕ) → contains r.ids_of_replicas id ≡ is_id_of_replica r id)
    × ((id : ℕ) → contains r.ids_of_peer_replicas id ≡ is_id_of_peer_replica r id)
make-ids_example = make-ids 4 6 1 1 true false refl
