-- ===== src/Collector/Entries.antt =====
-- The entries of a collector: counting them, marking a share as bad, and gathering shares for a job.
use concord_rcanopus.Base.{
  ℕ, suc, ◌≡◌, inl, inr, refl, sym, ap, ◌∙◌, Bool, true, false, not, ◌&&◌, ◌||◌, List, [], ◌∷◌,
  arith, ◌==◌, ==→eq, eq→==, ne→==, if◌then◌else◌, Bool-cases, and_true, or_false, refuted, if_true,
  if_false, then_inv, else_inv,
}
use mathlib.Core.Path.{subst}
use concord_rcanopus.Collector.{invalid, RepInfo, Infos, is_invalid, is_none, has, mark}

module _ {A : Type 0} where
  abbrev pub count : (A → Bool) → List A → ℕ
  count p [] = 0
  count p (x ∷ xs) = if p x then suc (count p xs) else count p xs

  pub count_zero :
      (p : A → Bool) (x : A) (xs : List A) → count p (x ∷ xs) ≡ 0 → (p x ≡ false) × (count p xs ≡ 0)
  count_zero p x xs h = elim (Bool-cases (p x)) [
    | inl e ↦ absurd (omega (arith, then_inv (p x) _ _ e h))
    | inr e ↦ (e, else_inv (p x) _ _ e h)
  ]

  pub count_none :
      (p : A → Bool) (x : A) (xs : List A) → p x ≡ false → count p xs ≡ 0 → count p (x ∷ xs) ≡ 0
  count_none p x xs e h = if_false (p x) _ _ e ∙ h

-- Members of a list, as tests.
abbrev pub is_member : ℕ → List ℕ → Bool
is_member r [] = false
is_member r (x ∷ xs) = r == x || is_member r xs

abbrev pub no_repeats : List ℕ → Bool
no_repeats [] = true
no_repeats (x ∷ xs) = not (is_member x xs) && no_repeats xs

and_false : (a : Bool) → a && false ≡ false
and_false true = refl
and_false false = refl

excluded : (a : Bool) → a && not a ≡ false
excluded true = refl
excluded false = refl

module _ {Part : Type 0} where
  abbrev pub is_usable : ℕ × RepInfo Part → Bool
  is_usable (r, info) = not (is_invalid info.state)

  abbrev pub is_absent : ℕ × RepInfo Part → Bool
  is_absent (r, info) = is_none info.partial_sig_msg

  -- The map has an entry for the replica whose share is not known to be bad.
  abbrev pub is_unknown : Infos Part → ℕ → Bool
  is_unknown [] r = false
  is_unknown ((id, info) ∷ rest) r =
      if r == id then not (is_invalid info.state) else is_unknown rest r

  -- The ids of the entries differ.
  abbrev pub is_map : Infos Part → Bool
  is_map [] = true
  is_map ((id, info) ∷ rest) = not (has id rest) && is_map rest

  -- An entry that is usable and is not the one its id leads to.
  abbrev pub is_hidden : Infos Part → ℕ × RepInfo Part → Bool
  is_hidden infos (r, info) = not (is_invalid info.state) && not (is_unknown infos r)

  unknown-has : (infos : Infos Part) (r : ℕ) → is_unknown infos r ≡ true → has r infos ≡ true
  unknown-has [] r h = absurd (cc h)
  unknown-has ((id, info) ∷ rest) r h = elim (Bool-cases (r == id)) [
    | inl e ↦ ap (λ b. b || has r rest) e
    | inr e ↦ ap (λ b. b || has r rest) e ∙ unknown-has rest r (else_inv (r == id) _ _ e h)
  ]

  -- A new entry hides no other.
  pub is_unknown_other :
      (infos : Infos Part) (r id : ℕ) (info : RepInfo Part)
      → has id infos ≡ false
      → is_unknown infos r ≡ true
      → is_unknown ((id, info) ∷ infos) r ≡ true
  is_unknown_other infos r id info fresh h = elim (Bool-cases (r == id)) [
    | inl e ↦
        absurd (cc (fresh, subst (λ x. has x infos ≡ true) (==→eq r id e) (unknown-has infos r h)))
    | inr e ↦ if_false (r == id) _ _ e ∙ h
  ]

  hidden_under :
      (xs rest : Infos Part) (id : ℕ) (info : RepInfo Part)
      → has id xs ≡ false
      → count (is_hidden rest) xs ≡ 0
      → count (is_hidden ((id, info) ∷ rest)) xs ≡ 0
  hidden_under [] rest id info fresh h = refl
  hidden_under ((r, x) ∷ xs) rest id info fresh h =
      let (other, fresh') = or_false (id == r) (has id xs) fresh in
      let (seen, none_later) = count_zero (is_hidden rest) (r, x) xs h in
      count_none (is_hidden ((id, info) ∷ rest)) (r, x) xs
        (ap (λ b. not (is_invalid x.state) && not b)
            (if_false (r == id) _ _ (ne→== r id (λ e. absurd (cc (other, eq→== id r (sym e))))))
          ∙ seen)
        (hidden_under xs rest id info fresh' none_later)

  -- In a map each entry is the one its id leads to.
  pub map_hides_none :
      (infos : Infos Part) → is_map infos ≡ true → count (is_hidden infos) infos ≡ 0
  map_hides_none [] h = refl
  map_hides_none ((id, info) ∷ rest) h =
      let (fresh, rest_map) = and_true (not (has id rest)) (is_map rest) h in
      count_none (is_hidden ((id, info) ∷ rest)) (id, info) rest
        (ap (λ b. not (is_invalid info.state) && not b) (if_true (id == id) _ _ (eq→== id id refl))
          ∙ excluded (not (is_invalid info.state)))
        (hidden_under rest rest id info (refuted (has id rest) fresh)
          (map_hides_none rest rest_map))

  -- What marking a replica's share as bad does, when it was usable.
  pub mark_counted :
      (infos : Infos Part) (r : ℕ)
      → is_unknown infos r ≡ true
      → suc (count is_usable (mark r infos)) ≡ count is_usable infos
  unfolding mark
  mark_counted [] r h = absurd (cc h)
  mark_counted ((id, info) ∷ rest) r h = elim (Bool-cases (r == id)) [
    | inl e ↦
        ap (λ xs. suc (count is_usable xs)) (if_true (r == id) _ _ e)
        ∙ sym (if_true (not (is_invalid info.state)) _ _ (then_inv (r == id) _ _ e h))
    | inr e ↦
        let later = mark_counted rest r (else_inv (r == id) _ _ e h) in
        ap (λ xs. suc (count is_usable xs)) (if_false (r == id) _ _ e)
        ∙ counted (not (is_invalid info.state)) _ _ later
  ]
    where
      counted :
          (b : Bool) (m n : ℕ) → suc m ≡ n → suc (if b then suc m else m) ≡ (if b then suc n else n)
      counted true m n e = ap suc e
      counted false m n e = e

  pub mark_present :
      (infos : Infos Part) (r : ℕ)
      → is_unknown infos r ≡ true
      → count is_absent infos ≡ 0
      → count is_absent (mark r infos) ≡ 0
  unfolding mark
  mark_present [] r h present = absurd (cc h)
  mark_present ((id, info) ∷ rest) r h present =
      let (here, later) = count_zero is_absent (id, info) rest present in
      elim (Bool-cases (r == id)) [
        | inl e ↦
            ap (count is_absent) (if_true (r == id) _ _ e)
            ∙ count_none is_absent (id, record info { state = invalid }) rest here later
        | inr e ↦
            ap (count is_absent) (if_false (r == id) _ _ e)
            ∙ count_none is_absent (id, info) (mark r rest) here
                (mark_present rest r (else_inv (r == id) _ _ e h) later)
      ]

  pub mark-has :
      (infos : Infos Part) (r j : ℕ)
      → is_unknown infos r ≡ true
      → has j (mark r infos) ≡ has j infos
  unfolding mark
  mark-has [] r j h = absurd (cc h)
  mark-has ((id, info) ∷ rest) r j h = elim (Bool-cases (r == id)) [
    | inl e ↦ ap (has j) (if_true (r == id) _ _ e)
    | inr e ↦
        ap (has j) (if_false (r == id) _ _ e)
        ∙ ap (λ b. j == id || b) (mark-has rest r j (else_inv (r == id) _ _ e h))
  ]

  pub mark_map :
      (infos : Infos Part) (r : ℕ)
      → is_unknown infos r ≡ true
      → is_map infos ≡ true
      → is_map (mark r infos) ≡ true
  unfolding mark
  mark_map [] r h good = absurd (cc h)
  mark_map ((id, info) ∷ rest) r h good =
      let (fresh, rest_map) = and_true (not (has id rest)) (is_map rest) good in
      elim (Bool-cases (r == id)) [
        | inl e ↦ ap is_map (if_true (r == id) _ _ e) ∙ good
        | inr e ↦
            let later = else_inv (r == id) _ _ e h in
            ap is_map (if_false (r == id) _ _ e)
            ∙ ap (λ b. not b && is_map (mark r rest)) (mark-has rest r id later)
            ∙ ap (λ b. b && is_map (mark r rest)) fresh
            ∙ mark_map rest r later rest_map
      ]

  -- Other replicas' shares stay as they were.
  pub mark_others :
      (infos : Infos Part) (r j : ℕ)
      → is_unknown infos r ≡ true
      → (j == r) ≡ false
      → is_unknown (mark r infos) j ≡ is_unknown infos j
  unfolding mark
  mark_others [] r j h other = absurd (cc h)
  mark_others ((id, info) ∷ rest) r j h other = elim (Bool-cases (r == id)) [
    | inl e ↦
        let not_here = subst (λ x. (j == x) ≡ false) (==→eq r id e) other in
        ap (λ xs. is_unknown xs j) (if_true (r == id) _ _ e)
        ∙ if_false (j == id) _ _ not_here
        ∙ sym (if_false (j == id) _ _ not_here)
    | inr e ↦
        ap (λ xs. is_unknown xs j) (if_false (r == id) _ _ e)
        ∙ ap (λ b. if j == id then not (is_invalid info.state) else b)
            (mark_others rest r j (else_inv (r == id) _ _ e h) other)
  ]
