-- ===== src/Clients/Replies/Others.antt =====
-- A reply that ClientsManager stores for one client leaves the replies of the others.
use mathlib.Core.Path.{subst}
use native.Mathlib.Decide.{dec_lt}
use concord_rcanopus.Base.{
  ℕ, zero, suc, ◌+◌, ◌*◌, ◌≤◌, ◌<◌, ◌≡◌, ◌≢◌, refl, ap, ◌∙◌, Bool, true, false, ◌&&◌, ◌==◌, ltb,
  leb, leb→le, Option, none, some, List, arith, length, get_elem?, ◌>>=◌, ◌>>◌, assert, and_true,
  bind_inv, assert_inv, some_inj,
}
use concord_rcanopus.Clients.{
  ClientInfo, ClientsManager, max_reply_message_size, pages_of, index_of, client, put_client,
  note_reply,
}
use concord_rcanopus.Clients.Pending.{index_of_inj, set_other}
use concord_rcanopus.Clients.Replies.{
  StateTransfer, IsStore, ReplyHeader, reply_code, size_of_reply_header, read_header, reply_body,
  set_primary_id, save_pages, load_pages, page_size, page_bytes, is_stored_reply,
  allocate_new_reply_msg_and_write_to_storage, allocate_msg_with_latest_reply,
}
use concord_rcanopus.Clients.Replies.Ranges.{pages_of-last_page_size, pages_of-le, apart}
use concord_rcanopus.Clients.Replies.Latest.{length-reply_body}

bind_same :
    {A B : Type 0} (o : Option A) (f g : A → Option B)
    → ((a : A) → o ≡ some a → f a ≡ g a)
    → (o >>= f) ≡ (o >>= g)
bind_same none f g h = refl
bind_same (some a) f g h = h a refl

bind_both :
    {A B : Type 0} (o o' : Option A) (f g : A → Option B)
    → o ≡ o'
    → ((a : A) → f a ≡ g a)
    → (o >>= f) ≡ (o' >>= g)
bind_both o o' f g same h = ap (λ x. x >>= f) same ∙ bind_same o' f g (λ a _. h a)

assert_same :
    {B : Type 0} (b : Bool) (x y : Option B)
    → (b ≡ true → x ≡ y)
    → (assert b >> x) ≡ (assert b >> y)
assert_same true x y h = h refl
assert_same false x y h = refl

no_offset : (n : ℕ) → n + 0 ≡ n
no_offset n = omega arith

pages_differ : (per i j a b : ℕ) → i ≢ j → a < per → b < per → j * per + b ≢ i * per + a
pages_differ per i j a b h ha hb same = elim (dec_lt i j) [
  | yes before ↦ absurd (omega (arith, apart per i j a b before ha hb))
  | no after ↦ absurd (omega (arith, apart per j i b a (omega arith) hb ha))
]

module _ {P : Type 0} (st : StateTransfer P) (laws : IsStore st) where
  save_pages_other :
      (body : List ℕ) (g f left i other n : ℕ) (p : P)
      → ((a : ℕ) → a < i + left → other ≢ f + a)
      → st.load_reserved_page (save_pages st body g f left i p) other n
        ≡ st.load_reserved_page p other n
  unfolding save_pages
  save_pages_other body g f zero i other n p apart = refl
  save_pages_other body g f (suc left) i other n p apart =
      save_pages_other body g f left (i + 1) other n _ (λ a h. apart a (omega arith))
      ∙ laws.load_other p (f + i) other n (page_bytes body g i) (apart i (omega arith))

  load_pages_same :
      (size g f left i : ℕ) (p p' : P)
      → ((b n : ℕ)
          → b < i + left
          → st.load_reserved_page p' (f + b) n ≡ st.load_reserved_page p (f + b) n)
      → load_pages st size g f left i p' ≡ load_pages st size g f left i p
  unfolding load_pages
  load_pages_same size g f zero i p p' same = refl
  load_pages_same size g f (suc left) i p p' same =
      rw
        (
          same i (page_size size g i) (omega arith),
          load_pages_same size g f left (i + 1) p p' (λ b n h. same b n (omega arith)),
        )
        refl

  stored_size :
      (h : ReplyHeader)
      → is_stored_reply st h ≡ true
      → size_of_reply_header + h.reply_length ≤ max_reply_message_size
  stored_size h stored =
      let (others, fits) =
        and_true (h.msg_type == reply_code && h.current_primary_id == 0 && ltb 0 h.reply_length)
          (leb (h.reply_length + size_of_reply_header) max_reply_message_size) stored in
      omega (arith, leb→le (h.reply_length + size_of_reply_header) max_reply_message_size fits)

  reads_same :
      (m : ClientsManager) (p : P) (infos : List ClientInfo) (body : List ℕ) (i other primary : ℕ)
      → 1 ≤ m.size_of_reserved_page
      → m.reserved_pages_per_client ≡ pages_of max_reply_message_size m.size_of_reserved_page
      → length body ≤ max_reply_message_size
      → ((j : ℕ)
          → index_of other m.client_ids ≡ some j
          → (i ≢ j) × (get_elem? infos j ≡ get_elem? m.index_to_client_info j))
      → allocate_msg_with_latest_reply st
          (record m { index_to_client_info = infos })
          (save_pages st body m.size_of_reserved_page
            (i * m.reserved_pages_per_client)
            (pages_of (length body) m.size_of_reserved_page)
            0
            p)
          other
          primary
        ≡ allocate_msg_with_latest_reply st m p other primary
  unfolding allocate_msg_with_latest_reply
  reads_same m p infos body i other primary some_page pages fits others =
      let g = m.size_of_reserved_page in
      let per = m.reserved_pages_per_client in
      let p' = save_pages st body g (i * per) (pages_of (length body) g) 0 p in
      let some_pages =
        (pages_of-last_page_size max_reply_message_size g some_page (omega arith)).1 in
      let shorter : (h : ReplyHeader)
          → is_stored_reply st h ≡ true
          → pages_of (size_of_reply_header + h.reply_length) g ≤ pages_of max_reply_message_size g =
        λ h stored.
          pages_of-le (size_of_reply_header + h.reply_length) max_reply_message_size g some_page
            (stored_size h stored) in
      let less = pages_of-le (length body) max_reply_message_size g some_page fits in
      bind_same (index_of other m.client_ids) _ _ (λ j found.
        let same : (b n : ℕ)
            → b < per
            → st.load_reserved_page p' (j * per + b) n ≡ st.load_reserved_page p (j * per + b) n =
          λ b n h.
            save_pages_other body g (i * per) (pages_of (length body) g) 0 (j * per + b) n p
              (λ a in_a. pages_differ per i j a b (others j found).0 (omega arith) h) in
        let header : st.load_reserved_page p' (j * per) g ≡ st.load_reserved_page p (j * per) g =
          subst (λ x. st.load_reserved_page p' x g ≡ st.load_reserved_page p x g)
            (no_offset (j * per)) (same 0 g (omega (arith, some_pages))) in
        bind_both _ _ _ _ (others j found).1 (λ info. assert_same _ _ _ (λ _.
          bind_both _ _ _ _ (ap read_header header) (λ h.
            assert_same (is_stored_reply st h) _ _ (λ stored.
              ap (λ bytes. some (set_primary_id primary bytes))
                (load_pages_same (size_of_reply_header + h.reply_length) g (j * per)
                  (pages_of (size_of_reply_header + h.reply_length) g) 0 p p'
                  (λ b n in_b. same b n (omega (arith, shorter h stored)))))))))

  -- Storing a reply that fits the reserved pages of a client, for one client, changes the latest
  -- reply that is read back for no other client, when the pages per client are those that the
  -- constructor computes and a page has a byte at least.
  pub allocate_msg_with_latest_reply-other :
      (m m' : ClientsManager) (p p' : P) (id other req primary now primary' : ℕ)
      (reply msg : List ℕ)
      → 1 ≤ m.size_of_reserved_page
      → m.reserved_pages_per_client ≡ pages_of max_reply_message_size m.size_of_reserved_page
      → length reply + 16 ≤ max_reply_message_size
      → other ≢ id
      → allocate_new_reply_msg_and_write_to_storage st m p id req primary reply now
        ≡ some (m', (p', msg))
      → allocate_msg_with_latest_reply st m' p' other primary'
        ≡ allocate_msg_with_latest_reply st m p other primary'
  unfolding allocate_new_reply_msg_and_write_to_storage note_reply put_client
  allocate_msg_with_latest_reply-other m m' p p' id other req primary now primary' reply msg
        some_page pages fits differ e =
      let (i, found, e1) = bind_inv (index_of id m.client_ids) _ _ e in
      let (m1, noted, e2) = bind_inv (note_reply m id req now) _ _ e1 in
      let (c, at, n1) = bind_inv (client m id) _ _ noted in
      let (newer, n2) = assert_inv (ltb c.last_seq_number_of_reply req) _ _ n1 in
      let (k, found', n3) = bind_inv (index_of id m.client_ids) _ _ n2 in
      let body = reply_body req reply in
      subst
        (λ (z : ClientsManager × (P × List ℕ)).
          allocate_msg_with_latest_reply st z.0 z.1.0 other primary'
          ≡ allocate_msg_with_latest_reply st m p other primary')
        (ap
            (λ (x : ClientsManager). (
              x,
              (
                save_pages st body m.size_of_reserved_page (i * m.reserved_pages_per_client)
                    (pages_of (length body) m.size_of_reserved_page) 0 p,
                set_primary_id primary body,
              ),
            ))
            (some_inj n3)
          ∙ some_inj e2)
        (reads_same m p _ body i other primary' some_page pages
          (omega (arith, length-reply_body req reply))
          (λ j here. (
            (λ same. differ (index_of_inj other id j m.client_ids here (found ∙ ap some same))),
            set_other m.index_to_client_info k j _ (λ same.
                differ (index_of_inj other id j m.client_ids here (found' ∙ ap some same))),
          )))
