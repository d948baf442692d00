-- ===== src/Clients/Replies/Latest.antt =====
-- The reply that ClientsManager stores for a client is the one that it sends again.
use concord_rcanopus.Base.{
  ℕ, ◌+◌, ◌*◌, ◌^◌, ◌≤◌, ◌<◌, ◌≡◌, refl, sym, ap, ◌∙◌, true, some, List, arith, lt→ltb, le→leb,
  ne→==, length, get_elem?, set, take,
}
use concord_rcanopus.Clients.{
  ClientInfo, ClientsManager, max_reply_message_size, pages_of, index_of, client, put_client,
  note_reply,
}
use concord_rcanopus.Clients.Pending.{index_of-client, set_same}
use concord_rcanopus.Clients.Replies.{
  StateTransfer, IsStore, ReplyHeader, reply_code, to_bytes, from_bytes, encode_header,
  decode_header, read_header, reply_body, set_primary_id, save_pages, load_pages,
  allocate_new_reply_msg_and_write_to_storage, allocate_msg_with_latest_reply, is_stored_reply,
}
use concord_rcanopus.Clients.Replies.Storage.{load_pages-save_pages, first_page}

abbrev header_of : ℕ → List ℕ → ReplyHeader
header_of req reply = record {
  msg_type = reply_code;
  current_primary_id = 0;
  req_seq_num = req;
  reply_length = length reply;
}

pub length-reply_body :
    (req : ℕ) (reply : List ℕ) → length (reply_body req reply) ≡ 16 + length reply
unfolding reply_body encode_header to_bytes
length-reply_body req reply = omega arith

front_is_header :
    (req : ℕ) (reply : List ℕ)
    → take 16 (reply_body req reply) ≡ encode_header (header_of req reply)
unfolding reply_body encode_header to_bytes
front_is_header req reply = refl

long_value : (n : ℕ) → n < 2 ^ 64 → from_bytes (to_bytes 8 n) ≡ n
unfolding from_bytes to_bytes
long_value n h = omega arith

word_value : (n : ℕ) → n < 2 ^ 32 → from_bytes (to_bytes 4 n) ≡ n
unfolding from_bytes to_bytes
word_value n h = omega arith

fields :
    (h : ReplyHeader)
    → decode_header (encode_header h) ≡ record {
      msg_type = from_bytes (to_bytes 2 h.msg_type);
      current_primary_id = from_bytes (to_bytes 2 h.current_primary_id);
      req_seq_num = from_bytes (to_bytes 8 h.req_seq_num);
      reply_length = from_bytes (to_bytes 4 h.reply_length);
    }
unfolding decode_header encode_header to_bytes
fields h = refl

decoded :
    (req : ℕ) (reply : List ℕ)
    → req < 2 ^ 64
    → length reply < 2 ^ 32
    → decode_header (encode_header (header_of req reply)) ≡ header_of req reply
unfolding from_bytes to_bytes
decoded req reply small short =
    fields (header_of req reply)
    ∙ ap
        (λ r. record {
          msg_type = reply_code;
          current_primary_id = 0;
          req_seq_num = r;
          reply_length = from_bytes (to_bytes 4 (length reply));
        })
        (long_value req small)
    ∙ ap
        (λ n. record {
          msg_type = reply_code;
          current_primary_id = 0;
          req_seq_num = req;
          reply_length = n;
        })
        (word_value (length reply) short)

module _ {P : Type 0} (st : StateTransfer P) (laws : IsStore st) where
  header_read :
      (req g f : ℕ) (reply : List ℕ) (p : P)
      → req < 2 ^ 64
      → length reply < 2 ^ 32
      → 16 ≤ g
      → read_header (
          st.load_reserved_page
            (save_pages st
              (reply_body req reply)
              g
              f
              (pages_of (length (reply_body req reply)) g)
              0
              p)
            f
            g)
        ≡ some (header_of req reply)
  unfolding read_header
  header_read req g f reply p small short page =
      let body = reply_body req reply in
      let size = length-reply_body req reply in
      let p' = save_pages st body g f (pages_of (length body) g) 0 p in
      let front =
        first_page st laws body g f 16 p page (omega arith) (omega (arith, size))
          (omega (arith, size))
        ∙ front_is_header req reply in
      rw
        (le→leb 16 (length (st.load_reserved_page p' f g)) (omega (arith, laws.load_length p' f g)))
        (ap some (ap decode_header front ∙ decoded req reply small short))

  stored_reply :
      (req : ℕ) (reply : List ℕ)
      → 1 ≤ length reply
      → length reply + 16 ≤ max_reply_message_size
      → is_stored_reply st (header_of req reply) ≡ true
  stored_reply req reply some_reply fits =
      rw
        (
          lt→ltb 0 (length reply) (omega arith),
          le→leb (length reply + 16) max_reply_message_size (omega arith),
        )
        refl

  reply_again :
      (m : ClientsManager) (p : P) (id i req primary : ℕ) (reply : List ℕ) (c : ClientInfo)
      → 16 ≤ m.size_of_reserved_page
      → 1 ≤ length reply
      → length reply + 16 ≤ max_reply_message_size
      → req < 2 ^ 64
      → index_of id m.client_ids ≡ some i
      → get_elem? m.index_to_client_info i ≡ some c
      → 1 ≤ c.last_seq_number_of_reply
      → allocate_msg_with_latest_reply st m
          (save_pages st
            (reply_body req reply)
            m.size_of_reserved_page
            (i * m.reserved_pages_per_client)
            (pages_of (length (reply_body req reply)) m.size_of_reserved_page)
            0
            p)
          id
          primary
        ≡ some (set_primary_id primary (reply_body req reply))
  unfolding allocate_msg_with_latest_reply
  reply_again m p id i req primary reply c page some_reply fits small found at replied =
      let g = m.size_of_reserved_page in
      let f = i * m.reserved_pages_per_client in
      let whole =
        ap
          (λ s. load_pages st s g f (pages_of s g) 0 (
            save_pages st (reply_body req reply) g f (pages_of (length (reply_body req reply)) g) 0
              p))
          (sym (length-reply_body req reply))
        ∙ load_pages-save_pages st laws (reply_body req reply) g f p (omega arith)
            (omega (arith, length-reply_body req reply)) in
      rw
        (
          found,
          at,
          ne→== c.last_seq_number_of_reply 0 (omega arith),
          header_read req g f reply p small (omega arith) page,
          stored_reply req reply some_reply fits,
          whole,
        )
        refl

  -- For a client whose last reply has a smaller number, storing a reply that is not empty and fits
  -- the reserved pages of a client succeeds, and gives the reply message for the primary named; and
  -- from the pages so written the latest reply of that client is read back as the same message, for
  -- any primary named then, provided that a page has room for the message's header.
  pub allocate_msg_with_latest_reply-allocate_new :
      (m : ClientsManager) (p : P) (id req primary now : ℕ) (reply : List ℕ) (c : ClientInfo)
      → 16 ≤ m.size_of_reserved_page
      → 1 ≤ length reply
      → length reply + 16 ≤ max_reply_message_size
      → req < 2 ^ 64
      → client m id ≡ some c
      → c.last_seq_number_of_reply < req
      → (m' : ClientsManager) × (p' : P) × (allocate_new_reply_msg_and_write_to_storage st m p id
            req primary reply now
          ≡ some (m', (p', set_primary_id primary (reply_body req reply))))
        × ((primary' : ℕ)
            → allocate_msg_with_latest_reply st m' p' id primary'
              ≡ some (set_primary_id primary' (reply_body req reply)))
  unfolding allocate_new_reply_msg_and_write_to_storage note_reply put_client
  allocate_msg_with_latest_reply-allocate_new m p id req primary now reply c page some_reply fits
        small e newer =
      let (i, found, at) = index_of-client m id c e in
      let c' : ClientInfo = record c { last_seq_number_of_reply = req; latest_reply_time = now } in
      let m' : ClientsManager = record m {
        index_to_client_info = set m.index_to_client_info i c';
      } in
      (
        m',
        save_pages st (reply_body req reply) m.size_of_reserved_page
            (i * m.reserved_pages_per_client)
            (pages_of (length (reply_body req reply)) m.size_of_reserved_page) 0 p,
        rw (found, e, lt→ltb c.last_seq_number_of_reply req newer) refl,
        (λ primary'.
            reply_again m' p id i req primary' reply c' page some_reply fits small found
              (set_same m.index_to_client_info i c' c at) (omega arith)),
      )
