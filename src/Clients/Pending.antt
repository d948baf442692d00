-- ===== src/Clients/Pending.antt =====
-- The life of a client's request: it can become pending, is pending, and is removed.
use concord_rcanopus.Base.{
  ℕ, zero, suc, ◌+◌, ◌≤◌, ◌<◌, ◌≡◌, ◌≢◌, inl, inr, refl, sym, ap, ◌∙◌, true, false, not, Option,
  none, some, List, [], ◌∷◌, arith, leb, ◌==◌, if◌then◌else◌, lt→ltb, ne→==, ==→eq, Bool-cases,
  Option-cases, length, get_elem?, set, ◌>>=◌,
}
use concord_rcanopus.Clients.{
  ClientInfo, ClientsManager, index_of, client, put_client, clear_pending,
  no_pending_and_request_can_become_pending, add_pending_request, remove_pending_request_of_client,
}

-- Every client has an entry.
pub IsWhole : ClientsManager → Type 0
IsWhole m = length m.index_to_client_info ≡ length m.client_ids

some_inj {ℓ} : {A : Type ℓ} (x y : A) → some x ≡ some y → x ≡ y
some_inj x y e = cc e

never {ℓ} : {A : Type ℓ} (x : A) → none ≡ some x → ⊥
never x e = cc e

next :
    (o : Option ℕ) (i : ℕ)
    → (o >>= λ j. some (j + 1)) ≡ some i
    → (j : ℕ) × (o ≡ some j) × (i ≡ j + 1)
next none i e = absurd (never i e)
next (some j) i e = (j, refl, sym (some_inj (j + 1) i e))

-- Two clients with the same index are one.
pub index_of_inj :
    (a b i : ℕ) (ids : List ℕ) → index_of a ids ≡ some i → index_of b ids ≡ some i → a ≡ b
unfolding index_of
index_of_inj a b i [] ea eb = absurd (never i ea)
index_of_inj a b i (x ∷ xs) ea eb = elim (Bool-cases (x == a)) [
  | inl at_a ↦ elim (Bool-cases (x == b)) [
    | inl at_b ↦ sym (==→eq x a at_a) ∙ ==→eq x b at_b
    | inr past_b ↦
        let zero_i : 0 ≡ i = some_inj 0 i (rw at_a at ea) in
        let (k, ek, eik) = next (index_of b xs) i (rw past_b at eb) in absurd (omega arith)
  ]
  | inr past_a ↦ elim (Bool-cases (x == b)) [
    | inl at_b ↦
        let zero_i : 0 ≡ i = some_inj 0 i (rw at_b at eb) in
        let (k, ek, eik) = next (index_of a xs) i (rw past_a at ea) in absurd (omega arith)
    | inr past_b ↦
        let (j, ej, eij) = next (index_of a xs) i (rw past_a at ea) in
        let (k, ek, eik) = next (index_of b xs) i (rw past_b at eb) in
        index_of_inj a b j xs ej (ek ∙ ap some (omega arith))
  ]
]

pub set_same :
    (xs : List ClientInfo) (i : ℕ) (v w : ClientInfo)
    → get_elem? xs i ≡ some w
    → get_elem? (set xs i v) i ≡ some v
set_same [] i v w e = absurd (never w e)
set_same (x ∷ xs) zero v w e = refl
set_same (x ∷ xs) (suc i) v w e = set_same xs i v w e

pub set_other :
    (xs : List ClientInfo) (i j : ℕ) (v : ClientInfo)
    → i ≢ j
    → get_elem? (set xs i v) j ≡ get_elem? xs j
set_other [] i j v h = refl
set_other (x ∷ xs) zero zero v h = absurd (h refl)
set_other (x ∷ xs) zero (suc j) v h = refl
set_other (x ∷ xs) (suc i) zero v h = refl
set_other (x ∷ xs) (suc i) (suc j) v h = set_other xs i j v (omega arith)

-- A write to a client's entry changes that client and no other.
abbrev pub Changed : ClientsManager → ℕ → ClientInfo → ClientsManager → Type 0
Changed m id info m' =
    (client m' id ≡ some info)
    × ((other : ℕ) → other ≢ id → client m' other ≡ client m other)
    × (m'.client_ids ≡ m.client_ids)

pub index_of-client :
    (m : ClientsManager) (id : ℕ) (c : ClientInfo)
    → client m id ≡ some c
    → (i : ℕ) × (index_of id m.client_ids ≡ some i) × (get_elem? m.index_to_client_info i ≡ some c)
unfolding client
index_of-client m id c e = elim (Option-cases (index_of id m.client_ids)) [
  | inl missing ↦ absurd (never c (rw missing at e))
  | inr (i, found) ↦ (i, found, rw found at e)
]

others :
    (m : ClientsManager) (id other i : ℕ) (info : ClientInfo)
    → index_of id m.client_ids ≡ some i
    → other ≢ id
    → client (record m { index_to_client_info = set m.index_to_client_info i info }) other
      ≡ client m other
unfolding client
others m id other i info found differs = elim (Option-cases (index_of other m.client_ids)) [
  | inl missing ↦ rw missing refl
  | inr (j, there) ↦ rw there (
      set_other m.index_to_client_info i j info
        (λ same. differs (index_of_inj other id i m.client_ids (there ∙ ap some (sym same)) found)))
]

pub put_client-Changed :
    (m : ClientsManager) (id : ℕ) (c info : ClientInfo)
    → client m id ≡ some c
    → (m' : ClientsManager) × (put_client m id info ≡ some m') × Changed m id info m'
unfolding put_client client
put_client-Changed m id c info e =
    let (i, found, at) = index_of-client m id c e in
    (
      record m { index_to_client_info = set m.index_to_client_info i info },
      rw found refl,
      (
        rw found (set_same m.index_to_client_info i info c at),
        (λ other differs. others m id other i info found differs),
        refl,
      ),
    )

can_parts :
    (c : ClientInfo) (req : ℕ)
    → some (
        if not (c.current_pending_request == 0)
        then false
        else if leb req c.last_seq_number_of_reply
        then false
        else true)
      ≡ some true
    → (c.current_pending_request ≡ 0) × (c.last_seq_number_of_reply < req)
can_parts c req h = let h' = some_inj _ _ h in ground arith

abbrev pub pending : ClientInfo → ℕ → ℕ → ClientInfo
pending c req now = record c {
  current_pending_request = req;
  time_of_current_pending_request = now;
}

refuses :
    (m : ClientsManager) (id req : ℕ) (c : ClientInfo)
    → client m id ≡ some c
    → 1 ≤ c.current_pending_request
    → no_pending_and_request_can_become_pending m id req ≡ some false
unfolding no_pending_and_request_can_become_pending
refuses m id req c e busy = rw (e, ne→== c.current_pending_request 0 (omega arith)) refl

removes :
    (m : ClientsManager) (id : ℕ) (c : ClientInfo)
    → client m id ≡ some c
    → 1 ≤ c.current_pending_request
    → (m' : ClientsManager) × (remove_pending_request_of_client m id ≡ some m')
      × Changed m id (clear_pending c) m'
unfolding remove_pending_request_of_client
removes m id c e busy =
    let (m', put, changed) = put_client-Changed m id c (clear_pending c) e in
    (m', rw (e, ne→== c.current_pending_request 0 (omega arith), put) refl, changed)

-- When the manager says that a request can become pending, adding it succeeds and changes only that
-- client, whose pending request and its time are then the ones given; after that no request of the
-- client can become pending; and removing the client's pending request succeeds, again changes only
-- that client, and leaves it without one.
pub add_pending_request-Changed :
    (m : ClientsManager) (id req now : ℕ)
    → no_pending_and_request_can_become_pending m id req ≡ some true
    → (c : ClientInfo) × (m' : ClientsManager) × (m'' : ClientsManager) × (client m id ≡ some c)
      × (add_pending_request m id req now ≡ some m')
      × Changed m id (pending c req now) m'
      × ((later : ℕ) → no_pending_and_request_can_become_pending m' id later ≡ some false)
      × (remove_pending_request_of_client m' id ≡ some m'')
      × Changed m' id (clear_pending c) m''
unfolding no_pending_and_request_can_become_pending add_pending_request
add_pending_request-Changed m id req now can = elim (Option-cases (client m id)) [
  | inl missing ↦ absurd (never true (rw missing at can))
  | inr (c, e) ↦
      let (idle, newer) = can_parts c req (rw e at can) in
      let (m', put, changed) = put_client-Changed m id c (pending c req now) e in
      let (m'', removed, cleared) = removes m' id (pending c req now) changed.0 (omega arith) in
      (
        c,
        m',
        m'',
        e,
        rw
            (
              e,
              lt→ltb c.last_seq_number_of_reply req newer,
              lt→ltb c.current_pending_request req (omega arith),
              put,
            )
            refl,
        changed,
        (λ later. refuses m' id later (pending c req now) changed.0 (omega arith)),
        removed,
        cleared,
      )
]
