-- ===== src/Clients/Replies.antt =====
-- ClientsManager: the replies in the reserved pages of the state transfer, and the reply message.
pub mod Ranges
pub mod Storage
pub mod Latest
pub mod Others
use concord_rcanopus.Base.{
  ℕ, zero, suc, ◌+◌, ◌-◌, ◌*◌, ◌/◌, ◌%◌, ◌^◌, ◌≡◌, ◌≢◌, ◌≤◌, Bool, true, false, not, ◌&&◌, ◌||◌,
  Option, none, some, List, [], ◌∷◌, ◌++◌, ltb, leb, ◌==◌, if◌then◌else◌, length, get_elem?, set,
  take, drop, ◌>>=◌, ◌>>◌, assert,
}
use concord_rcanopus.Clients.{
  ClientInfo, ClientsManager, max_reply_message_size, pages_of, index_of, client, note_reply,
  load_info,
}

-- The part of IStateTransfer that keeps the reserved pages.
pub record StateTransfer (P : Type 0) : Type 0 where
  pub load_reserved_page : P → ℕ → ℕ → List ℕ
  pub save_reserved_page : P → ℕ → List ℕ → P
  pub zero_reserved_page : P → ℕ → P

-- What its users rely on: a page reads back what was last saved at its front, and a load gives as
-- many bytes as are asked for.
pub record IsStore {P : Type 0} (st : StateTransfer P) : Type 0 where
  pub load_length : (p : P) (id n : ℕ) → length (st.load_reserved_page p id n) ≡ n
  pub load_saved :
      (p : P) (id n : ℕ) (bytes : List ℕ)
      → length bytes ≤ n
      → take (length bytes) (st.load_reserved_page (st.save_reserved_page p id bytes) id n) ≡ bytes
  pub load_other :
      (p : P) (id other n : ℕ) (bytes : List ℕ)
      → other ≢ id
      → st.load_reserved_page (st.save_reserved_page p id bytes) other n
        ≡ st.load_reserved_page p other n

-- `ClientReplyMsgHeader`.
pub record ReplyHeader : Type 0 where
  pub msg_type : ℕ
  pub current_primary_id : ℕ
  pub req_seq_num : ℕ
  pub reply_length : ℕ

abbrev pub size_of_reply_header : ℕ
size_of_reply_header = 16

abbrev pub reply_code : ℕ
reply_code = 800

-- A number in `k` bytes, on a little-endian machine.
pub to_bytes : ℕ → ℕ → List ℕ
to_bytes zero n = []
to_bytes (suc k) n = n % 256 ∷ to_bytes k (n / 256)

pub from_bytes : List ℕ → ℕ
from_bytes [] = 0
from_bytes (b ∷ bs) = b + 256 * from_bytes bs

pub encode_header : ReplyHeader → List ℕ
encode_header h =
    to_bytes 2 h.msg_type
    ++ (to_bytes 2 h.current_primary_id ++ (to_bytes 8 h.req_seq_num ++ to_bytes 4 h.reply_length))

pub decode_header : List ℕ → ReplyHeader
decode_header bytes = record {
  msg_type = from_bytes (take 2 bytes);
  current_primary_id = from_bytes (take 2 (drop 2 bytes));
  req_seq_num = from_bytes (take 8 (drop 4 bytes));
  reply_length = from_bytes (take 4 (drop 12 bytes));
}

-- The header is read from the first bytes of a page.
pub read_header : List ℕ → Option ReplyHeader
read_header page = do
  assert (leb size_of_reply_header (length page))
  some (decode_header (take size_of_reply_header page))

-- `ClientReplyMsg(replicaId, reqSeqNum, reply, replyLength)`, its body.
pub reply_body : ℕ → List ℕ → List ℕ
reply_body req reply =
    encode_header (record {
      msg_type = reply_code;
      current_primary_id = 0;
      req_seq_num = req;
      reply_length = length reply;
    })
    ++ reply

unfoldable pub set_primary_id : ℕ → List ℕ → List ℕ
set_primary_id primary body = take 2 body ++ (to_bytes 2 primary ++ drop 4 body)

pub last_page_size : ℕ → ℕ → ℕ
last_page_size size page = if not (size % page == 0) then size % page else page

-- The size of page `i` of a message.
pub page_size : ℕ → ℕ → ℕ → ℕ
page_size size page i = if ltb i (pages_of size page - 1) then page else last_page_size size page

pub page_bytes : List ℕ → ℕ → ℕ → List ℕ
page_bytes body page i = take (page_size (length body) page i) (drop (i * page) body)

module _ {P : Type 0} (st : StateTransfer P) where
  -- The loop that writes `left` more pages of a message, from page `i` on.
  pub save_pages : List ℕ → ℕ → ℕ → ℕ → ℕ → P → P
  save_pages body page first zero i p = p
  save_pages body page first (suc left) i p =
      save_pages body page first left (i + 1)
        (st.save_reserved_page p (first + i) (page_bytes body page i))

  -- The loop that reads them.
  pub load_pages : ℕ → ℕ → ℕ → ℕ → ℕ → P → List ℕ
  load_pages size page first zero i p = []
  load_pages size page first (suc left) i p =
      st.load_reserved_page p (first + i) (page_size size page i)
      ++ load_pages size page first left (i + 1) p

  -- The result with the message's body, in which the primary's id is set after the pages are written.
  unfoldable pub allocate_new_reply_msg_and_write_to_storage :
      ClientsManager → P → ℕ → ℕ → ℕ → List ℕ → ℕ → Option (ClientsManager × (P × List ℕ))
  allocate_new_reply_msg_and_write_to_storage m p id req primary reply now = do
    idx ← index_of id m.client_ids
    m' ← note_reply m id req now
    let body = reply_body req reply
    some (
      m',
      (
        save_pages body m.size_of_reserved_page (idx * m.reserved_pages_per_client)
            (pages_of (length body) m.size_of_reserved_page) 0 p,
        set_primary_id primary body,
      ),
    )

  -- The checks of the stored header.
  abbrev pub is_stored_reply : ReplyHeader → Bool
  is_stored_reply h =
      h.msg_type == reply_code
      && h.current_primary_id == 0
      && ltb 0 h.reply_length
      && leb (h.reply_length + size_of_reply_header) max_reply_message_size

  pub allocate_msg_with_latest_reply : ClientsManager → P → ℕ → ℕ → Option (List ℕ)
  allocate_msg_with_latest_reply m p id primary = do
    idx ← index_of id m.client_ids
    info ← get_elem? m.index_to_client_info idx
    assert (not (info.last_seq_number_of_reply == 0))
    let first = idx * m.reserved_pages_per_client
    header ← read_header (st.load_reserved_page p first m.size_of_reserved_page)
    assert (is_stored_reply header)
    let size = size_of_reply_header + header.reply_length
    some (
        set_primary_id primary (
          load_pages size m.size_of_reserved_page first (pages_of size m.size_of_reserved_page) 0
            p))

  unfoldable pub clear_pages : ℕ → ℕ → P → P
  clear_pages zero i p = p
  clear_pages (suc left) i p = clear_pages left (i + 1) (st.zero_reserved_page p i)

  unfoldable pub clear_reserved_pages : ClientsManager → P → P
  clear_reserved_pages m p = clear_pages m.required_number_of_pages 0 p

  -- The loop of `loadInfoFromReservedPages` over the entries, from index `i` on.
  unfoldable pub load_infos : ClientsManager → P → ℕ → List ClientInfo → Option (List ClientInfo)
  load_infos m p i [] = some []
  load_infos m p i (c ∷ cs) = do
    h ←
        read_header
          (st.load_reserved_page p (i * m.reserved_pages_per_client) m.size_of_reserved_page)
    assert (h.msg_type == 0 || h.msg_type == reply_code)
    assert (h.current_primary_id == 0)
    assert (leb (h.reply_length + size_of_reply_header) max_reply_message_size)
    rest ← load_infos m p (i + 1) cs
    some (load_info c h.req_seq_num ∷ rest)

  unfoldable pub load_info_from_reserved_pages : ClientsManager → P → Option ClientsManager
  load_info_from_reserved_pages m p = do
    infos ← load_infos m p 0 m.index_to_client_info
    some (record m { index_to_client_info = infos })
