-- ===== src/ViewChange/Restrictions/Sorting.antt =====
-- The descending sort of sequence numbers, and how many entries lie above each of its positions.
use concord_rcanopus.Base.{
  ℕ, zero, suc, ◌+◌, ◌≤◌, ◌≡◌, refl, Bool, some, List, [], ◌∷◌, arith, ltb, leb, if◌then◌else◌,
  length, get_elem?, Bool-cases, leb→le, inl, inr,
}
use concord_rcanopus.ViewChange.Restrictions.{insert_desc, sort_desc}

abbrev pub count_by : (ℕ → Bool) → List ℕ → ℕ
count_by p [] = 0
count_by p (x ∷ xs) = (if p x then 1 else 0) + count_by p xs

abbrev AllBelow : ℕ → List ℕ → Type 0
AllBelow x [] = Unit
AllBelow x (y ∷ ys) = (y ≤ x) × AllBelow x ys

abbrev IsDescending : List ℕ → Type 0
IsDescending [] = Unit
IsDescending (x ∷ xs) = AllBelow x xs × IsDescending xs

count_by-insert_desc :
    (p : ℕ → Bool) (x : ℕ) (xs : List ℕ)
    → count_by p (insert_desc x xs) ≡ (if p x then 1 else 0) + count_by p xs
unfolding insert_desc
count_by-insert_desc p x [] = refl
count_by-insert_desc p x (y ∷ ys) = ground (arith, count_by-insert_desc p x ys)

-- Sorting keeps every count.
pub count_by-sort_desc : (p : ℕ → Bool) (xs : List ℕ) → count_by p (sort_desc xs) ≡ count_by p xs
unfolding sort_desc
count_by-sort_desc p [] = refl
count_by-sort_desc p (x ∷ xs) =
    omega (arith, count_by-insert_desc p x (sort_desc xs), count_by-sort_desc p xs)

length-insert_desc : (x : ℕ) (xs : List ℕ) → length (insert_desc x xs) ≡ suc (length xs)
unfolding insert_desc
length-insert_desc x [] = refl
length-insert_desc x (y ∷ ys) = ground (arith, length-insert_desc x ys)

pub length-sort_desc : (xs : List ℕ) → length (sort_desc xs) ≡ length xs
unfolding sort_desc
length-sort_desc [] = refl
length-sort_desc (x ∷ xs) = omega (arith, length-insert_desc x (sort_desc xs), length-sort_desc xs)

AllBelow-mono : (x y : ℕ) (xs : List ℕ) → x ≤ y → AllBelow x xs → AllBelow y xs
AllBelow-mono x y [] h b = tt
AllBelow-mono x y (z ∷ zs) h b = (omega arith, AllBelow-mono x y zs h b.1)

AllBelow-insert_desc :
    (b x : ℕ) (xs : List ℕ) → x ≤ b → AllBelow b xs → AllBelow b (insert_desc x xs)
unfolding insert_desc
AllBelow-insert_desc b x [] h below = (h, tt)
AllBelow-insert_desc b x (y ∷ ys) h below = ground (arith, AllBelow-insert_desc b x ys h below.1)

insert_desc-IsDescending : (x : ℕ) (xs : List ℕ) → IsDescending xs → IsDescending (insert_desc x xs)
unfolding insert_desc
insert_desc-IsDescending x [] d = (tt, tt)
insert_desc-IsDescending x (y ∷ ys) d = elim (Bool-cases (leb y x)) [
  | inl below ↦ rw below (((leb→le y x below), AllBelow-mono y x ys (leb→le y x below) d.0), d)
  | inr above ↦
      rw above (AllBelow-insert_desc y x ys (ground arith) d.0, insert_desc-IsDescending x ys d.1)
]

pub sort_desc-IsDescending : (xs : List ℕ) → IsDescending (sort_desc xs)
unfolding sort_desc
sort_desc-IsDescending [] = tt
sort_desc-IsDescending (x ∷ xs) =
    insert_desc-IsDescending x (sort_desc xs) (sort_desc-IsDescending xs)

AllBelow-get : (b k v : ℕ) (xs : List ℕ) → AllBelow b xs → get_elem? xs k ≡ some v → v ≤ b
AllBelow-get b k v [] h e = absurd (cc e)
AllBelow-get b zero v (x ∷ xs) h e = ground arith
AllBelow-get b (suc k) v (x ∷ xs) h e = AllBelow-get b k v xs h.1 e

none_above : (b : ℕ) (xs : List ℕ) → AllBelow b xs → count_by (ltb b) xs ≡ 0
none_above b [] h = refl
none_above b (x ∷ xs) h = ground (arith, none_above b xs h.1)

-- In a descending list the entry at index `k` has at least k + 1 entries that reach it, and at most
-- `k` that exceed it.
pub IsDescending-get :
    (k v : ℕ) (xs : List ℕ)
    → IsDescending xs
    → get_elem? xs k ≡ some v
    → (suc k ≤ count_by (leb v) xs) × (count_by (ltb v) xs ≤ k)
IsDescending-get k v [] d e = absurd (cc e)
IsDescending-get zero v (x ∷ xs) d e = ground (arith, none_above x xs d.0)
IsDescending-get (suc k) v (x ∷ xs) d e =
    ground (arith, IsDescending-get k v xs d.1 e, AllBelow-get x k v xs d.0 e)

-- The first entry is the largest.
pub IsDescending-first :
    (k a b : ℕ) (xs : List ℕ)
    → IsDescending xs
    → get_elem? xs 0 ≡ some a
    → get_elem? xs k ≡ some b
    → b ≤ a
IsDescending-first k a b [] d e e' = absurd (cc e)
IsDescending-first zero a b (x ∷ xs) d e e' = ground arith
IsDescending-first (suc k) a b (x ∷ xs) d e e' = ground (arith, AllBelow-get x k b xs d.0 e')
