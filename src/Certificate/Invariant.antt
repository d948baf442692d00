-- ===== src/Certificate/Invariant.antt =====
-- The invariant of a certificate, and the lemmas on its parts.
use native.Mathlib.Decide.{ℕ_discrete}
use concord_rcanopus.Base.{
  ℕ, zero, suc, ◌+◌, ◌≤◌, ◌<◌, ◌≡◌, refl, Bool, true, false, Option, none, some, List, [], ◌∷◌,
  arith, if◌then◌else◌, length, get_elem?, modify, ne→==,
}
use concord_rcanopus.Certificate.{
  Certificate, ClassInfo, MsgMap, lookup, is_some, is_class, enlarge, has_msg_from_replica,
  try_to_mark_complete, finish_class,
}
use concord_rcanopus.Certificate.Support.{support, Found}

-- The trusted class may count the replica's own message twice.
abbrev pub slack : Bool → ℕ
slack true = 1
slack false = 0

-- The best class exists and is at least as large as recorded.
abbrev pub BestHolds : Option ℕ → List ClassInfo → ℕ → Type 0
BestHolds none classes size = (classes ≡ []) × (size ≡ 0)
BestHolds (some i) classes size =
    (class : ClassInfo) × (get_elem? classes i ≡ some class) × (size ≤ class.size)

module _ {T : Type 0} (equivalent : T → T → Bool) where
  -- Each class is headed by a stored message, and has no more members than that message supports.
  abbrev pub Counted : ℕ → MsgMap T → List ClassInfo → Type 0
  Counted extra msgs [] = Unit
  Counted extra msgs (class ∷ rest) =
      ((m : T) × (lookup class.representative msgs ≡ some m)
        × (class.size ≤ support equivalent m msgs + extra))
      × Counted extra msgs rest

  -- The classes that a replica's message heads.
  abbrev pub Headed : ℕ → List ClassInfo → Type 0
  Headed r [] = Unit
  Headed r (class ∷ rest) = (class.representative ≡ r) × Headed r rest

  pub Headed-modify :
      (r i : ℕ) (classes : List ClassInfo) → Headed r classes → Headed r (modify classes i enlarge)
  Headed-modify r i [] h = tt
  Headed-modify r zero (class ∷ rest) (here, h) = (here, h)
  Headed-modify r (suc i) (class ∷ rest) (here, h) = (here, Headed-modify r i rest h)

  pub Headed-get :
      (r i : ℕ) (classes : List ClassInfo) (class : ClassInfo)
      → Headed r classes
      → get_elem? classes i ≡ some class
      → class.representative ≡ r
  Headed-get r i [] class h e = absurd (cc e)
  Headed-get r zero (c ∷ rest) class (here, h) e = cc (here, e)
  Headed-get r (suc i) (c ∷ rest) class (here, h) e = Headed-get r i rest class h e

  -- A trusted class is headed by the replica's own message, and there are no others.
  pub record IsSound (c : Certificate T) : Type 0 where
    pub counted : Counted (slack c.has_trusted_self_class) c.msgs c.classes
    pub best : BestHolds c.best_class c.classes c.size_of_best_class
    pub own :
        c.has_trusted_self_class ≡ true
        → (is_some (lookup c.self_id c.msgs) ≡ true)
          × (0 < length c.classes)
          × (c.self_trust ≡ true)
          × Headed c.self_id c.classes

  -- A complete certificate has a best class of the required size.
  abbrev pub IsDone : Certificate T → Type 0
  IsDone c =
      c.complete ≡ true
      → (is_some c.best_class ≡ true)
        × (c.required ≤ c.size_of_best_class)
        × ((c.self_is_required ≡ true) → is_some (lookup c.self_id c.msgs) ≡ true)

  pub record IsValid (c : Certificate T) : Type 0 where
    pub sound : IsSound c
    pub done : IsDone c

  pub Counted-Found :
      (extra : ℕ) (msgs : MsgMap T) (classes : List ClassInfo)
      → Counted extra msgs classes
      → Found equivalent msgs classes
  Counted-Found extra msgs [] h = tt
  Counted-Found extra msgs (class ∷ rest) ((m, e, _), h) = ((m, e), Counted-Found extra msgs rest h)

  -- A message that has an entry keeps it when a new replica's message is stored.
  pub lookup-store :
      (r k : ℕ) (x m : T) (msgs : MsgMap T)
      → lookup r msgs ≡ none
      → lookup k msgs ≡ some m
      → lookup k ((r, x) ∷ msgs) ≡ some m
  lookup-store r k x m msgs fresh e = elim (ℕ_discrete k r) [
    | yes same ↦ cc (fresh, e, same)
    | no differs ↦ rw (ne→== k r differs) e
  ]

  pub Counted-store :
      (extra r : ℕ) (x : T) (msgs : MsgMap T) (classes : List ClassInfo)
      → lookup r msgs ≡ none
      → Counted extra msgs classes
      → Counted extra ((r, x) ∷ msgs) classes
  Counted-store extra r x msgs [] fresh h = tt
  Counted-store extra r x msgs (class ∷ rest) fresh ((m, e, le), h) = (
    (m, lookup-store r class.representative x m msgs fresh e, omega arith),
    Counted-store extra r x msgs rest fresh h,
  )

  pub Counted-grow :
      (extra r i : ℕ) (x m : T) (msgs : MsgMap T) (class : ClassInfo) (classes : List ClassInfo)
      → lookup r msgs ≡ none
      → Counted extra msgs classes
      → get_elem? classes i ≡ some class
      → lookup class.representative ((r, x) ∷ msgs) ≡ some m
      → equivalent m x ≡ true
      → Counted extra ((r, x) ∷ msgs) (modify classes i enlarge)
  Counted-grow extra r i x m msgs class [] fresh h at look fits = tt
  Counted-grow extra r zero x m msgs class (c ∷ rest) fresh ((m', e, le), h) at look fits = (
    (m', lookup-store r c.representative x m' msgs fresh e, grown),
    Counted-store extra r x msgs rest fresh h,
  )
    where
      grown : c.size + 1 ≤ support equivalent m' ((r, x) ∷ msgs) + extra
      grown = ground (arith, lookup-store r c.representative x m' msgs fresh e)
  Counted-grow extra r (suc i) x m msgs class (c ∷ rest) fresh ((m', e, le), h) at look fits = (
    (m', lookup-store r c.representative x m' msgs fresh e, omega arith),
    Counted-grow extra r i x m msgs class rest fresh h at look fits,
  )

  get-enlarge :
      (i j : ℕ) (classes : List ClassInfo) (class : ClassInfo)
      → get_elem? classes j ≡ some class
      → (class' : ClassInfo) × (get_elem? (modify classes i enlarge) j ≡ some class')
        × (class.size ≤ class'.size)
  get-enlarge i j [] class e = absurd (cc e)
  get-enlarge zero zero (c ∷ rest) class e = (enlarge c, refl, ground arith)
  get-enlarge zero (suc j) (c ∷ rest) class e = (class, e, omega arith)
  get-enlarge (suc i) zero (c ∷ rest) class e = (class, e, omega arith)
  get-enlarge (suc i) (suc j) (c ∷ rest) class e = get-enlarge i j rest class e

  pub get-enlarge_self :
      (i : ℕ) (classes : List ClassInfo) (class : ClassInfo)
      → get_elem? classes i ≡ some class
      → get_elem? (modify classes i enlarge) i ≡ some (enlarge class)
  get-enlarge_self i [] class e = absurd (cc e)
  get-enlarge_self zero (c ∷ rest) class e = cc e
  get-enlarge_self (suc i) (c ∷ rest) class e = get-enlarge_self i rest class e

  pub BestHolds-modify :
      (best : Option ℕ) (i size : ℕ) (classes : List ClassInfo)
      → BestHolds best classes size
      → BestHolds best (modify classes i enlarge) size
  BestHolds-modify none i size [] h = h
  BestHolds-modify none i size (c ∷ rest) (e, _) = absurd (cc e)
  BestHolds-modify (some j) i size classes (class, e, le) =
      let (class', e', le') = get-enlarge i j classes class e in (class', e', omega (arith, le'))

  marked-IsSound :
      (b : Bool) (c : Certificate T)
      → IsSound c
      → IsSound (if b then record c { complete = true } else c)
  marked-IsSound true c s = record { counted = s.counted; best = s.best; own = s.own }
  marked-IsSound false c s = s

  pub try_to_mark_complete-IsSound :
      (c : Certificate T) → IsSound c → IsSound (try_to_mark_complete c)
  unfolding try_to_mark_complete
  try_to_mark_complete-IsSound c s = marked-IsSound _ c s

  try_to_mark_complete-IsDone :
      (c : Certificate T)
      → c.complete ≡ false
      → is_some c.best_class ≡ true
      → c.required ≤ c.size_of_best_class
      → IsDone (try_to_mark_complete c)
  unfolding try_to_mark_complete has_msg_from_replica
  try_to_mark_complete-IsDone c pending best large = ground arith

  -- Marking a certificate whose best class is large enough keeps the invariant.
  pub try_to_mark_complete-IsValid :
      (c : Certificate T)
      → IsSound c
      → c.complete ≡ false
      → is_some c.best_class ≡ true
      → c.required ≤ c.size_of_best_class
      → IsValid (try_to_mark_complete c)
  try_to_mark_complete-IsValid c s pending best large = record {
    sound = try_to_mark_complete-IsSound c s;
    done = try_to_mark_complete-IsDone c pending best large;
  }

  pending-IsDone : (c : Certificate T) → c.complete ≡ false → IsDone c
  pending-IsDone c pending done = absurd (cc (pending, done))

  -- An operation that meets no fault and returns a valid certificate.
  abbrev pub Keeps : Option (Certificate T) → Type 0
  Keeps o = (c : Certificate T) × (o ≡ some c) × IsValid c

  pub if-Keeps :
      (b : Bool) (o o' : Option (Certificate T))
      → (b ≡ true → Keeps o)
      → (b ≡ false → Keeps o')
      → Keeps (if b then o else o')
  if-Keeps true o o' h k = h refl
  if-Keeps false o o' h k = k refl

  pub Counted-get :
      (extra : ℕ) (msgs : MsgMap T) (classes : List ClassInfo) (i : ℕ) (class : ClassInfo)
      → Counted extra msgs classes
      → get_elem? classes i ≡ some class
      → (m : T) × (lookup class.representative msgs ≡ some m)
        × (class.size ≤ support equivalent m msgs + extra)
  Counted-get extra msgs [] i class h e = absurd (cc e)
  Counted-get extra msgs (c ∷ rest) zero class ((m, look, le), h) e =
      (m, ground arith, ground arith)
  Counted-get extra msgs (c ∷ rest) (suc i) class (first, h) e =
      Counted-get extra msgs rest i class h e

  pub if-IsSound :
      (b : Bool) (c d : Certificate T)
      → (b ≡ true → IsSound c)
      → (b ≡ false → IsSound d)
      → IsSound (if b then c else d)
  if-IsSound true c d h k = h refl
  if-IsSound false c d h k = k refl

  pub if-IsValid :
      (b : Bool) (c d : Certificate T)
      → (b ≡ true → IsValid c)
      → IsValid d
      → IsValid (if b then c else d)
  if-IsValid true c d h k = h refl
  if-IsValid false c d h k = k

  pub pending-IsValid : (c : Certificate T) → IsSound c → c.complete ≡ false → IsValid c
  pending-IsValid c s pending = record { sound = s; done = pending-IsDone c pending }

  -- The end of `addPeerMsg` keeps the invariant.
  pub finish_class-IsValid :
      (c : Certificate T) (i : ℕ) → IsSound c → c.complete ≡ false → IsValid (finish_class c i)
  unfolding finish_class
  finish_class-IsValid c i s pending =
      if-IsValid _ (try_to_mark_complete c) c
        (λ h. try_to_mark_complete-IsValid c s pending (best_of c i (ground arith)) (ground arith))
        (pending-IsValid c s pending)
    where
      best_of :
          (c : Certificate T) (i : ℕ) → is_class c.best_class i ≡ true → is_some c.best_class ≡ true
      best_of c i h = ground arith
