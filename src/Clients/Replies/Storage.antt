-- ===== src/Clients/Replies/Storage.antt =====
-- A reply that is written to the reserved pages reads back whole.
use native.Mathlib.Nat.{add-mul}
use mathlib.Core.Path.{subst}
use native.Mathlib.Decide.{dec_lt}
use concord_rcanopus.Base.{
  ℕ, zero, suc, ◌+◌, ◌-◌, ◌*◌, ◌≤◌, ◌<◌, ◌≡◌, refl, sym, ap, ◌∙◌, List, [], ◌∷◌, ◌++◌, arith,
  lt→ltb, not_lt→ltb, length, take, drop, take-drop, length-take, length-drop, take_all, take-take,
  drop-drop,
}
use concord_rcanopus.Clients.{pages_of}
use concord_rcanopus.Clients.Replies.{
  StateTransfer, IsStore, page_size, page_bytes, last_page_size, save_pages, load_pages,
}
use concord_rcanopus.Clients.Replies.Ranges.{pages_of-last_page_size}

product_le : (a b g : ℕ) → a ≤ b → a * g ≤ b * g
product_le a b g h = grind arith

no_offset : (g : ℕ) → 0 * g ≡ 0
no_offset g = omega arith

suc_product : (i g : ℕ) → (i + 1) * g ≡ i * g + g
suc_product i g = grind (arith, add-mul i 1 g)

inner_page : (s g i : ℕ) → i + 1 < pages_of s g → page_size s g i ≡ g
unfolding page_size
inner_page s g i h = rw (lt→ltb i (pages_of s g - 1) (omega arith)) refl

end_page : (s g i : ℕ) → i + 1 ≡ pages_of s g → page_size s g i ≡ last_page_size s g
unfolding page_size
end_page s g i h = rw (not_lt→ltb i (pages_of s g - 1) (omega arith)) refl

-- The first page holds every prefix that fits a page.
first_holds :
    (s g k : ℕ) → 1 ≤ g → 1 ≤ s → k ≤ g → k ≤ s → (k ≤ page_size s g 0) × (page_size s g 0 ≤ g)
first_holds s g k some_page some_bytes small fits =
    let (e, p, l, u) = pages_of-last_page_size s g some_page some_bytes in
    elim (dec_lt 1 (pages_of s g)) [
      | yes inner ↦ (omega (arith, inner_page s g 0 inner), omega (arith, inner_page s g 0 inner))
      | no single ↦
          let last = end_page s g 0 (omega arith) in
          let none_before = ap (λ n. n * g) (no_more (pages_of s g) p single) ∙ no_offset g in
          (omega (arith, last, none_before), omega (arith, last))
    ]
  where
    no_more : (n : ℕ) → 1 ≤ n → ¬ (1 < n) → n - 1 ≡ 0
    no_more n p h = omega arith

-- A page of the message lies within it, and the last one ends it.
page_inside : (s g i : ℕ) → 1 ≤ g → 1 ≤ s → i < pages_of s g → i * g + page_size s g i ≤ s
page_inside s g i some_page some_bytes h =
    let (e, p, l, u) = pages_of-last_page_size s g some_page some_bytes in
    elim (dec_lt (i + 1) (pages_of s g)) [
      | yes inner ↦ omega (
        arith,
        inner_page s g i inner,
        product_le (i + 1) (pages_of s g - 1) g (omega arith),
        suc_product i g,
      )
      | no at_end ↦ omega (
        arith,
        end_page s g i (omega arith),
        ap (λ k. k * g) (index_of_end i (pages_of s g) (omega arith)),
      )
    ]
  where
    index_of_end : (i n : ℕ) → i + 1 ≡ n → i ≡ n - 1
    index_of_end i n e = omega arith

pub length-page_bytes :
    (body : List ℕ) (g i : ℕ)
    → 1 ≤ g
    → 1 ≤ length body
    → i < pages_of (length body) g
    → length (page_bytes body g i) ≡ page_size (length body) g i
unfolding page_bytes
length-page_bytes body g i some_page some_bytes h =
    length-take (page_size (length body) g i) (drop (i * g) body) (
      omega (arith, length-drop (i * g) body, page_inside (length body) g i some_page some_bytes h))

-- The pages from `i` on, one after the other.
abbrev concat_pages : List ℕ → ℕ → ℕ → ℕ → List ℕ
concat_pages body g zero i = []
concat_pages body g (suc left) i = page_bytes body g i ++ concat_pages body g left (i + 1)

append_nil : (xs : List ℕ) → xs ++ [] ≡ xs
append_nil [] = refl
append_nil (x ∷ xs) = rw (append_nil xs) refl

concat_pages_lem :
    (body : List ℕ) (g left i : ℕ)
    → 1 ≤ g
    → 1 ≤ length body
    → i + suc left ≡ pages_of (length body) g
    → concat_pages body g (suc left) i ≡ drop (i * g) body
unfolding page_bytes
concat_pages_lem body g zero i some_page some_bytes h =
    let s = length body in
    let (e, p, l, u) = pages_of-last_page_size s g some_page some_bytes in
    append_nil (page_bytes body g i)
    ∙ take_all (page_size s g i) (drop (i * g) body) (
        omega (
          arith,
          length-drop (i * g) body,
          end_page s g i (omega arith),
          ap (λ k. k * g) (index_of_end i (pages_of s g) (omega arith)),
        ))
  where
    index_of_end : (i n : ℕ) → i + 1 ≡ n → i ≡ n - 1
    index_of_end i n e = omega arith
concat_pages_lem body g (suc left) i some_page some_bytes h =
    let s = length body in
    ap (λ k. take k (drop (i * g) body) ++ concat_pages body g (suc left) (i + 1))
      (inner_page s g i (omega arith))
    ∙ ap (λ ys. take g (drop (i * g) body) ++ ys)
        (concat_pages_lem body g left (i + 1) some_page some_bytes (omega arith)
          ∙ ap (λ k. drop k body) (suc_product i g)
          ∙ sym (drop-drop g (i * g) body))
    ∙ take-drop g (drop (i * g) body)

module _ {P : Type 0} (st : StateTransfer P) (laws : IsStore st) where
  -- Writing pages from `i` on leaves the pages before.
  save_pages_below :
      (body : List ℕ) (g f left i j n : ℕ) (p : P)
      → j < i
      → st.load_reserved_page (save_pages st body g f left i p) (f + j) n
        ≡ st.load_reserved_page p (f + j) n
  unfolding save_pages
  save_pages_below body g f zero i j n p h = refl
  save_pages_below body g f (suc left) i j n p h =
      save_pages_below body g f left (i + 1) j n _ (omega arith)
      ∙ laws.load_other p (f + i) (f + j) n (page_bytes body g i) (omega arith)

  save_pages_first :
      (body : List ℕ) (g f left i n : ℕ) (p : P)
      → length (page_bytes body g i) ≤ n
      → take (length (page_bytes body g i)) (
          st.load_reserved_page
            (save_pages st body g f left
              (i + 1)
              (st.save_reserved_page p (f + i) (page_bytes body g i)))
            (f + i)
            n)
        ≡ page_bytes body g i
  save_pages_first body g f left i n p fits =
      ap (take (length (page_bytes body g i)))
        (save_pages_below body g f left (i + 1) i n _ (omega arith))
      ∙ laws.load_saved p (f + i) n (page_bytes body g i) fits

  -- A page that was written reads back, at its front.
  save_pages_front :
      (body : List ℕ) (g f left i j n : ℕ) (p : P)
      → i ≤ j
      → j < i + left
      → length (page_bytes body g j) ≤ n
      → take
          (length (page_bytes body g j))
          (st.load_reserved_page (save_pages st body g f left i p) (f + j) n)
        ≡ page_bytes body g j
  unfolding save_pages
  save_pages_front body g f zero i j n p low high fits = absurd (omega arith)
  save_pages_front body g f (suc left) i j n p low high fits = elim (dec_lt i j) [
    | yes later ↦ save_pages_front body g f left (i + 1) j n _ (omega arith) (omega arith) fits
    | no now ↦
        let same : i ≡ j = omega arith in
        subst
          (λ k.
            take (length (page_bytes body g k)) (
              st.load_reserved_page
                (save_pages st body g f left (i + 1)
                  (st.save_reserved_page p (f + i) (page_bytes body g i)))
                (f + k) n)
            ≡ page_bytes body g k)
          same
          (save_pages_first body g f left i n p
            (subst (λ k. length (page_bytes body g k) ≤ n) (sym same) fits))
  ]

  load_pages-concat_pages :
      (body : List ℕ) (g f left i : ℕ) (p : P)
      → ((j : ℕ)
          → i ≤ j
          → j < i + left
          → st.load_reserved_page p (f + j) (page_size (length body) g j) ≡ page_bytes body g j)
      → load_pages st (length body) g f left i p ≡ concat_pages body g left i
  unfolding load_pages
  load_pages-concat_pages body g f zero i p reads = refl
  load_pages-concat_pages body g f (suc left) i p reads =
      rw
        (
          reads i (omega arith) (omega arith),
          load_pages-concat_pages body g f left (i + 1) p
              (λ j low high. reads j (omega arith) (omega arith)),
        )
        refl

  -- Every page of a message that is written as a whole reads back.
  saved_page :
      (body : List ℕ) (g f j : ℕ) (p : P)
      → 1 ≤ g
      → 1 ≤ length body
      → j < pages_of (length body) g
      → st.load_reserved_page
          (save_pages st body g f (pages_of (length body) g) 0 p)
          (f + j)
          (page_size (length body) g j)
        ≡ page_bytes body g j
  saved_page body g f j p some_page some_bytes h =
      let size = length-page_bytes body g j some_page some_bytes h in
      let n = page_size (length body) g j in
      let p' = save_pages st body g f (pages_of (length body) g) 0 p in
      let loaded = st.load_reserved_page p' (f + j) n in
      sym (
        take_all (length (page_bytes body g j)) loaded
          (omega (arith, laws.load_length p' (f + j) n)))
      ∙ save_pages_front body g f (pages_of (length body) g) 0 j n p (omega arith) (omega arith)
          (omega arith)

  -- A message that is not empty reads back from the pages it was written to, whatever they held.
  pub load_pages-save_pages :
      (body : List ℕ) (g f : ℕ) (p : P)
      → 1 ≤ g
      → 1 ≤ length body
      → load_pages st
          (length body)
          g
          f
          (pages_of (length body) g)
          0
          (save_pages st body g f (pages_of (length body) g) 0 p)
        ≡ body
  load_pages-save_pages body g f p some_page some_bytes =
      let s = length body in
      let (e, some_pages, l, u) = pages_of-last_page_size s g some_page some_bytes in
      load_pages-concat_pages body g f (pages_of s g) 0 (save_pages st body g f (pages_of s g) 0 p)
        (λ j low high. saved_page body g f j p some_page some_bytes (omega arith))
      ∙ whole body g (pages_of s g) some_page some_bytes some_pages refl
    where
      whole :
          (body : List ℕ) (g n : ℕ)
          → 1 ≤ g
          → 1 ≤ length body
          → 1 ≤ n
          → n ≡ pages_of (length body) g
          → concat_pages body g n 0 ≡ body
      whole body g zero some_page some_bytes h e = absurd (omega arith)
      whole body g (suc n) some_page some_bytes h e =
          concat_pages_lem body g n 0 some_page some_bytes (omega arith)
          ∙ ap (λ k. drop k body) (no_offset g)

  -- The front of the first page is that of the message.
  pub first_page :
      (body : List ℕ) (g f k : ℕ) (p : P)
      → k ≤ g
      → 1 ≤ g
      → 1 ≤ length body
      → k ≤ length body
      → take k (st.load_reserved_page (save_pages st body g f (pages_of (length body) g) 0 p) f g)
        ≡ take k body
  unfolding page_bytes
  first_page body g f k p small some_page some_bytes fits =
      let s = length body in
      let (held, within) = first_holds s g k some_page some_bytes small fits in
      let (e, some_pages, l, u) = pages_of-last_page_size s g some_page some_bytes in
      let size = length-page_bytes body g 0 some_page some_bytes (omega arith) in
      let p' = save_pages st body g f (pages_of s g) 0 p in
      let front =
        ap (λ a. take (length (page_bytes body g 0)) (st.load_reserved_page p' a g)) (plus_zero f)
        ∙ save_pages_front body g f (pages_of s g) 0 0 g p (omega arith) (omega arith)
            (omega arith) in
      sym (take-take k (length (page_bytes body g 0)) (st.load_reserved_page p' f g) (omega arith))
      ∙ ap (take k) front
      ∙ take-take k (page_size s g 0) (drop (0 * g) body) held
      ∙ ap (λ n. take k (drop n body)) (no_offset g)
    where
      plus_zero : (f : ℕ) → f ≡ f + 0
      plus_zero f = omega arith
