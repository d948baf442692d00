-- ===== src/Replicas.antt =====
-- ReplicasInfo.cpp and ReplicasInfo.hpp: the replicas, the primary of a view and the collectors of
-- the partial proofs.
pub mod Collectors
pub mod Ids
mod Tests
use concord_rcanopus.Base.{
  ℕ, zero, suc, ◌+◌, ◌*◌, ◌/◌, ◌%◌, ◌≡◌, Bool, true, false, not, ◌&&◌, ◌||◌, Option, none, some,
  List, [], ◌∷◌, arith, ltb, leb, ◌==◌, if◌then◌else◌, ◌>>=◌, ◌>>◌, assert,
}

pub record ReplicasInfo : Type 0 where
  pub my_id : ℕ
  pub number_of_replicas : ℕ
  pub f_val : ℕ
  pub c_val : ℕ
  pub dynamic_collector_for_partial_proofs : Bool
  pub dynamic_collector_for_execution_proofs : Bool
  pub ids_of_replicas : List ℕ
  pub ids_of_peer_replicas : List ℕ

-- The loops of the two help functions, from the id `i`, for `k` more ids.
pub generate_set_of_replicas : ℕ → ℕ → List ℕ
generate_set_of_replicas i zero = []
generate_set_of_replicas i (suc k) = i ∷ generate_set_of_replicas (i + 1) k

pub generate_set_of_peer_replicas : ℕ → ℕ → ℕ → List ℕ
generate_set_of_peer_replicas my_id i zero = []
generate_set_of_peer_replicas my_id i (suc k) =
    let rest = generate_set_of_peer_replicas my_id (i + 1) k in
    if not (i == my_id) then i ∷ rest else rest

-- The constructor.
unfoldable pub make : ℕ → ℕ → ℕ → ℕ → Bool → Bool → Option ReplicasInfo
make my_id n f c for_partial for_execution = do
  assert (n == 3 * f + 2 * c + 1)
  some (record {
    my_id = my_id;
    number_of_replicas = n;
    f_val = f;
    c_val = c;
    dynamic_collector_for_partial_proofs = for_partial;
    dynamic_collector_for_execution_proofs = for_execution;
    ids_of_replicas = generate_set_of_replicas 0 n;
    ids_of_peer_replicas = generate_set_of_peer_replicas my_id 0 n;
  })

module _ (r : ReplicasInfo) where
  unfoldable pub is_id_of_replica : ℕ → Bool
  is_id_of_replica id = ltb id r.number_of_replicas

  unfoldable pub is_id_of_peer_replica : ℕ → Bool
  is_id_of_peer_replica id = ltb id r.number_of_replicas && not (id == r.my_id)

  unfoldable pub primary_of_view : ℕ → ℕ
  primary_of_view view = view % r.number_of_replicas

  -- `ignore primary`: the collectors from the primary on move up by one, round the ring.
  pub ignore_primary : ℕ → ℕ → ℕ
  ignore_primary primary collector =
      let next = (collector + 1) % r.number_of_replicas in
      if leb primary collector
      then if next == primary then (next + 1) % r.number_of_replicas else next
      else collector

  -- The result with the array of collectors.
  pub get_collectors_for : ℕ → ℕ → ℕ → Bool × List ℕ
  get_collectors_for ref_replica v seq =
      let primary = primary_of_view v in
      let half = r.number_of_replicas / 2 in
      let collector = ignore_primary primary (seq % r.number_of_replicas) in
      let collector1 = ignore_primary primary (seq % half) in
      let collector2 = ignore_primary primary (seq % half + half) in
      if not r.dynamic_collector_for_partial_proofs
      then (primary == ref_replica, primary ∷ [])
      else if r.c_val == 0
      then (collector == ref_replica, collector ∷ [])
      else (
        (collector1 == ref_replica) || (collector2 == ref_replica),
        collector1 ∷ collector2 ∷ [],
      )

  unfoldable pub get_collectors_for_partial_proofs : ℕ → ℕ → Bool × List ℕ
  get_collectors_for_partial_proofs v seq = get_collectors_for r.my_id v seq

  unfoldable pub is_collector_for_partial_proofs : ℕ → ℕ → Bool
  is_collector_for_partial_proofs v seq = (get_collectors_for_partial_proofs v seq).0

  unfoldable pub get_execution_collectors : ℕ → ℕ → Bool × List ℕ
  get_execution_collectors v seq =
      if not r.dynamic_collector_for_execution_proofs
      then (primary_of_view v == r.my_id, primary_of_view v ∷ [])
      else get_collectors_for_partial_proofs v seq

  unfoldable pub is_execution_collector_for_partial_proofs : ℕ → ℕ → Bool
  is_execution_collector_for_partial_proofs v seq = (get_execution_collectors v seq).0
