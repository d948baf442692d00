-- ===== src/Certificate.antt =====
-- MsgsCertificate.hpp: messages from distinct replicas, sorted into classes of equivalent messages,
-- until one class is large enough.
pub mod Support
pub mod Invariant
pub mod Peer
pub mod Own
pub mod Adding
pub mod Quorum
pub mod Best
pub mod Waiting
pub mod Complete
pub mod Twice
mod Tests
use concord_rcanopus.Base.{
  ℕ, zero, suc, ◌+◌, ◌≡◌, Bool, true, false, not, ◌&&◌, ◌||◌, Option, none, some, List, [], ◌∷◌,
  ◌++◌, ltb, leb, ◌==◌, if◌then◌else◌, length, get_elem?, modify, ◌>>=◌, ◌>>◌,
}

-- The constructor's arguments and the template's switches. `KeepAllMsgs` is asserted to be true.
pub record Config : Type 0 where
  pub self_trust : Bool
  pub self_is_required : Bool
  pub num_of_reps : ℕ
  pub max_fails : ℕ
  pub required : ℕ
  pub self_id : ℕ

pub record ClassInfo : Type 0 where
  pub size : ℕ
  pub representative : ℕ

-- `unordered_map<ReplicaId, T*>`.
abbrev pub MsgMap {ℓ} : Type ℓ → Type ℓ
MsgMap T = List (ℕ × T)

-- `classes` holds the first `numOfClasses` entries of `msgClasses`; `best_class` is `none` for
-- `NULL_CLASS`.
pub record Certificate {ℓ} (T : Type ℓ) : Type ℓ where
  pub config : Config
  pub open config use *
  pub msgs : MsgMap T
  pub classes : List ClassInfo
  pub complete : Bool
  pub best_class : Option ℕ
  pub size_of_best_class : ℕ
  pub has_trusted_self_class : Bool

abbrev pub is_class : Option ℕ → ℕ → Bool
is_class none i = false
is_class (some j) i = j == i

abbrev pub enlarge : ClassInfo → ClassInfo
enlarge class = record class { size = class.size + 1 }

module _ {ℓ} {T : Type ℓ} where
  abbrev pub lookup : ℕ → MsgMap T → Option T
  lookup r [] = none
  lookup r ((j, m) ∷ rest) = if r == j then some m else lookup r rest

  abbrev pub is_some : Option T → Bool
  is_some none = false
  is_some (some _) = true

  unfoldable pub make : Config → Certificate T
  make cfg = record {
    config = cfg;
    msgs = [];
    classes = [];
    complete = false;
    best_class = none;
    size_of_best_class = 0;
    has_trusted_self_class = false;
  }

  pub is_empty : Certificate T → Bool
  is_empty c = elim c.msgs [ [] ↦ true | _ ∷ _ ↦ false ]

  pub has_msg_from_replica : Certificate T → ℕ → Bool
  has_msg_from_replica c r = is_some (lookup r c.msgs)

  unfoldable pub reset_and_free : Certificate T → Certificate T
  unfolding is_empty
  reset_and_free c = if is_empty c then record c { complete = false } else record c {
    msgs = [];
    classes = [];
    complete = false;
    best_class = none;
    size_of_best_class = 0;
    has_trusted_self_class = false;
  }

  pub is_complete : Certificate T → Bool
  is_complete c = c.complete

  unfoldable pub is_inconsistent : Certificate T → Bool
  is_inconsistent c = leb (c.max_fails + 1) (length c.classes)

  unfoldable pub self_msg : Certificate T → Option T
  self_msg c = lookup c.self_id c.msgs

  pub try_to_mark_complete : Certificate T → Certificate T
  unfolding has_msg_from_replica
  try_to_mark_complete c =
      if not c.self_is_required || has_msg_from_replica c c.self_id
      then record c { complete = true }
      else c

  -- `bestCorrectMsg`: a null pointer is `some none`, an access out of bounds is `none`.
  pub best_correct_msg : Certificate T → Option (Option T)
  best_correct_msg c =
      if c.has_trusted_self_class || leb (c.max_fails + 1) c.size_of_best_class
      then (do
        i ← c.best_class
        class ← get_elem? c.classes i
        m ← lookup class.representative c.msgs
        some (some m))
      else some none

  -- The end of `addPeerMsg`, for the class `i` that has just been enlarged.
  pub note_larger : Certificate T → ℕ → ℕ → Certificate T
  note_larger c i size =
      if ltb c.size_of_best_class size
      then record c { best_class = some i; size_of_best_class = size }
      else c

  pub finish_class : Certificate T → ℕ → Certificate T
  unfolding try_to_mark_complete
  finish_class c i =
      if is_class c.best_class i && leb c.required c.size_of_best_class
      then try_to_mark_complete c
      else c

  pub grow_class : Certificate T → ℕ → Option (Certificate T)
  unfolding note_larger finish_class
  grow_class c i = do
    class ← get_elem? c.classes i
    let grown = record c { classes = modify c.classes i enlarge }
    some (finish_class (note_larger grown i (class.size + 1)) i)

  -- A message that fits no class opens one, while there is room.
  pub new_class : Certificate T → ℕ → Certificate T
  new_class c r = if leb c.num_of_reps (length c.classes) then c else elim c.best_class [
    | none ↦ record c {
      classes = c.classes ++ record { size = 1; representative = r } ∷ [];
      best_class = some (length c.classes);
      size_of_best_class = 1;
    }
    | some _ ↦ record c { classes = c.classes ++ record { size = 1; representative = r } ∷ [] }
  ]

-- `equivalent` is that of the template's `ExternalFunc`.
module _ {ℓ} {T : Type ℓ} (equivalent : T → T → Bool) where
  -- "looking for a class", from class `i` on; a representative with no message is a fault.
  pub find_class : MsgMap T → T → List ClassInfo → ℕ → Option (Option ℕ)
  find_class msgs msg [] i = some none
  find_class msgs msg (class ∷ rest) i =
      let later = find_class msgs msg rest (i + 1) in
      elim (lookup class.representative msgs) [
        | none ↦ none
        | some m ↦ if equivalent m msg then some (some i) else later
      ]

  pub add_to_trusted : Certificate T → T → Option (Certificate T)
  add_to_trusted c msg = do
    class ← get_elem? c.classes 0
    m ← lookup class.representative c.msgs
    if equivalent m msg then grow_class c 0 else some c

  abbrev pub add_to_class : Certificate T → ℕ → Option ℕ → Option (Certificate T)
  add_to_class c r none = some (new_class c r)
  add_to_class c r (some i) = grow_class c i

  pub add_peer_msg : Certificate T → T → ℕ → Option (Certificate T)
  add_peer_msg c msg r =
      if c.has_trusted_self_class
      then add_to_trusted c msg
      else (find_class c.msgs msg c.classes 0 >>= add_to_class c r)

  -- The size of the class that the replica's own message heads: one more than the class that it
  -- fits, which has already been enlarged for it.
  abbrev pub own_class_size : Certificate T → Option ℕ → Option ℕ
  own_class_size c none = some 1
  own_class_size c (some i) = do
    class ← get_elem? (modify c.classes i enlarge) i
    some (class.size + 1)

  -- `msgClasses` has an entry for each replica, of which a group has one at least.
  pub head_own_class : Certificate T → ℕ → Certificate T
  unfolding try_to_mark_complete
  head_own_class c size =
      let own = record c {
        classes = record { size = size; representative = c.self_id } ∷ [];
        best_class = some 0;
        size_of_best_class = size;
        has_trusted_self_class = true;
      } in
      if leb c.required size then try_to_mark_complete own else own

  pub add_self_msg : Certificate T → T → Option (Certificate T)
  add_self_msg c msg = do
    relevant ← find_class c.msgs msg c.classes 0
    size ← own_class_size c relevant
    some (head_own_class c size)

  pub classify : Certificate T → T → ℕ → Option (Certificate T)
  classify c msg r =
      if c.self_trust && r == c.self_id then add_self_msg c msg else add_peer_msg c msg r

  pub add_msg : Certificate T → T → ℕ → Option (Certificate T × Bool)
  unfolding has_msg_from_replica
  add_msg c msg r = if has_msg_from_replica c r then some (c, false) else (do
    let stored = record c { msgs = (r, msg) ∷ c.msgs }
    c' ← if stored.complete then some stored else classify stored msg r
    some (c', true))

  -- A run of `addMsg` calls, in their order.
  unfoldable pub add_all : Certificate T → List (T × ℕ) → Option (Certificate T)
  add_all c [] = some c
  add_all c ((msg, r) ∷ rest) = do (c', _) ← add_msg c msg r; add_all c' rest
