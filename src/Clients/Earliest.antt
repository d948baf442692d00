-- ===== src/Clients/Earliest.antt =====
-- ClientsManager::timeOfEarliestPendingRequest: the minimum over the clients.
use concord_rcanopus.Base.{
  ℕ, zero, suc, ◌≤◌, ◌≡◌, ◌≢◌, ◌⊎◌, inl, inr, refl, sym, ◌∙◌, some, List, [], ◌∷◌, arith, get_elem?,
}
use concord_rcanopus.Clients.{
  ClientInfo, ClientsManager, min_time, max_time, earlier, earliest_from,
  time_of_earliest_pending_request,
}

-- The time `t` is not after the pending request of any client of the list.
pub Earliest : ℕ → List ClientInfo → Type 0
Earliest t cs =
    (i : ℕ) (c : ClientInfo)
    → get_elem? cs i ≡ some c
    → c.time_of_current_pending_request ≢ min_time
    → t ≤ c.time_of_current_pending_request

-- The time `t` is that of some client of the list with a pending request.
pub IsTimeOf : ℕ → List ClientInfo → Type 0
IsTimeOf t cs =
    (i : ℕ) × ((c : ClientInfo) × (get_elem? cs i ≡ some c)
      × (c.time_of_current_pending_request ≡ t)
      × (t ≢ min_time))

earlier_le : (t : ℕ) (c : ClientInfo) → earlier t c ≤ t
earlier_le t c = ground arith

earlier_own :
    (t : ℕ) (c : ClientInfo)
    → c.time_of_current_pending_request ≢ min_time
    → earlier t c ≤ c.time_of_current_pending_request
earlier_own t c pending = ground arith

earlier_cases :
    (t : ℕ) (c : ClientInfo)
    → (earlier t c ≡ t)
      ⊎ ((c.time_of_current_pending_request ≡ earlier t c) × (earlier t c ≢ min_time))
earlier_cases t c = ground arith

earliest_from_le : (t : ℕ) (cs : List ClientInfo) → earliest_from t cs ≤ t
unfolding earliest_from
earliest_from_le t [] = omega arith
earliest_from_le t (c ∷ cs) = omega (arith, earliest_from_le (earlier t c) cs, earlier_le t c)

first_inj : (c d : ClientInfo) → some c ≡ some d → c ≡ d
first_inj c d e = cc e

earliest_from-Earliest : (t : ℕ) (cs : List ClientInfo) → Earliest (earliest_from t cs) cs
unfolding earliest_from Earliest
earliest_from-Earliest t [] i c e pending = absurd (cc e)
earliest_from-Earliest t (d ∷ cs) zero c e pending = rw (sym (first_inj d c e)) (
    omega (
      arith,
      earliest_from_le (earlier t d) cs,
      earlier_own t d (rw (← first_inj d c e) at pending),
    ))
earliest_from-Earliest t (d ∷ cs) (suc i) c e pending =
    earliest_from-Earliest (earlier t d) cs i c e pending

later : (t : ℕ) (d : ClientInfo) (cs : List ClientInfo) → IsTimeOf t cs → IsTimeOf t (d ∷ cs)
unfolding IsTimeOf
later t d cs (i, (c, e, same, pending)) = (suc i, (c, e, same, pending))

here :
    (d : ClientInfo) (cs : List ClientInfo) (t : ℕ)
    → d.time_of_current_pending_request ≡ t
    → t ≢ min_time
    → IsTimeOf t (d ∷ cs)
unfolding IsTimeOf
here d cs t same pending = (0, (d, refl, same, pending))

earliest_from-IsTimeOf :
    (t : ℕ) (cs : List ClientInfo) → (earliest_from t cs ≡ t) ⊎ IsTimeOf (earliest_from t cs) cs
unfolding earliest_from
earliest_from-IsTimeOf t [] = inl refl
earliest_from-IsTimeOf t (d ∷ cs) = elim (earliest_from-IsTimeOf (earlier t d) cs) [
  | inr found ↦ inr (later _ d cs found)
  | inl kept ↦ elim (earlier_cases t d) [
    | inl same ↦ inl (kept ∙ same)
    | inr (own, pending) ↦ inr (here d cs _ (own ∙ sym kept) (λ e. pending (sym kept ∙ e)))
  ]
]

-- The reported time is not after the time of any client's pending request, and it is the time of
-- some client's pending request, unless it is the greatest time of all, which stands for none.
pub time_of_earliest_pending_request-Earliest :
    (m : ClientsManager)
    → Earliest (time_of_earliest_pending_request m) m.index_to_client_info
      × ((time_of_earliest_pending_request m ≡ max_time)
          ⊎ IsTimeOf (time_of_earliest_pending_request m) m.index_to_client_info)
unfolding time_of_earliest_pending_request
time_of_earliest_pending_request-Earliest m = (
  earliest_from-Earliest max_time m.index_to_client_info,
  earliest_from-IsTimeOf max_time m.index_to_client_info,
)
