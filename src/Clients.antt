-- ===== src/Clients.antt =====
-- ClientsManager.cpp and its header: for each client the pending request and the last reply, and the
-- reserved pages that keep the replies.
pub mod Pending
pub mod Earliest
pub mod Replies
mod Tests
use concord_rcanopus.Base.{
  ℕ, zero, suc, ◌+◌, ◌-◌, ◌*◌, ◌/◌, ◌%◌, ◌^◌, ◌≡◌, ◌≤◌, Bool, true, false, not, ◌&&◌, ◌||◌, Option,
  none, some, List, [], ◌∷◌, ◌++◌, map, ltb, leb, ◌==◌, if◌then◌else◌, length, get_elem?, set,
  replicate, ◌>>=◌, ◌>>◌, assert,
}

abbrev pub min_time : ℕ
min_time = 0

abbrev pub max_time : ℕ
max_time = 2 ^ 64 - 1

abbrev pub max_reply_message_size : ℕ
max_reply_message_size = 8 * 1024

pub record ClientInfo : Type 0 where
  pub current_pending_request : ℕ
  pub time_of_current_pending_request : ℕ
  pub last_seq_number_of_reply : ℕ
  pub latest_reply_time : ℕ

-- `client_ids` is the sorted set of the clients: a client's index is its place.
pub record ClientsManager : Type 0 where
  pub my_id : ℕ
  pub size_of_reserved_page : ℕ
  pub reserved_pages_per_client : ℕ
  pub required_number_of_pages : ℕ
  pub client_ids : List ℕ
  pub index_to_client_info : List ClientInfo

abbrev pub new_client : ClientInfo
new_client = record {
  current_pending_request = 0;
  time_of_current_pending_request = min_time;
  last_seq_number_of_reply = 0;
  latest_reply_time = min_time;
}

-- `(a + b - 1) / b`, as the code computes it.
pub pages_of : ℕ → ℕ → ℕ
pages_of size page = if not (size % page == 0) then size / page + 1 else size / page

-- The constructor; a page size of 0 divides by zero.
unfoldable pub make : ℕ → List ℕ → ℕ → Option ClientsManager
make my_id clients page = do
  assert (leb 1 (length clients))
  assert (not (page == 0))
  some (record {
    my_id = my_id;
    size_of_reserved_page = page;
    reserved_pages_per_client = pages_of max_reply_message_size page;
    required_number_of_pages = length clients % 2 ^ 16 * pages_of max_reply_message_size page;
    client_ids = clients;
    index_to_client_info = replicate (length clients) new_client;
  })

-- `clientIdToIndex_.at`.
pub index_of : ℕ → List ℕ → Option ℕ
index_of id [] = none
index_of id (x ∷ xs) =
    let later = index_of id xs in if x == id then some 0 else (do i ← later; some (i + 1))

unfoldable pub is_valid_client : ClientsManager → ℕ → Bool
is_valid_client m id = elim (index_of id m.client_ids) [ none ↦ false | some i ↦ true ]

pub client : ClientsManager → ℕ → Option ClientInfo
client m id = do i ← index_of id m.client_ids; get_elem? m.index_to_client_info i

-- A write through the reference to a client's entry.
pub put_client : ClientsManager → ℕ → ClientInfo → Option ClientsManager
put_client m id info = do
  i ← index_of id m.client_ids
  some (record m { index_to_client_info = set m.index_to_client_info i info })

unfoldable pub seq_number_of_last_reply_to_client : ClientsManager → ℕ → Option ℕ
seq_number_of_last_reply_to_client m id = do c ← client m id; some c.last_seq_number_of_reply

unfoldable pub get_info_about_last_reply_to_client : ClientsManager → ℕ → Option (ℕ × ℕ)
get_info_about_last_reply_to_client m id = do
  c ← client m id
  some (c.last_seq_number_of_reply, c.latest_reply_time)

pub no_pending_and_request_can_become_pending : ClientsManager → ℕ → ℕ → Option Bool
no_pending_and_request_can_become_pending m id req = do
  c ← client m id
  some (
      if not (c.current_pending_request == 0)
      then false
      else if leb req c.last_seq_number_of_reply
      then false
      else true)

-- The clock reads `now`.
pub add_pending_request : ClientsManager → ℕ → ℕ → ℕ → Option ClientsManager
add_pending_request m id req now = do
  c ← client m id
  assert (ltb c.last_seq_number_of_reply req && ltb c.current_pending_request req)
  put_client m id
      (record c { current_pending_request = req; time_of_current_pending_request = now })

abbrev pub clear_pending : ClientInfo → ClientInfo
clear_pending c = record c {
  current_pending_request = 0;
  time_of_current_pending_request = min_time;
}

pub remove_pending_request_of_client : ClientsManager → ℕ → Option ClientsManager
remove_pending_request_of_client m id = do
  c ← client m id
  (if not (c.current_pending_request == 0) then put_client m id (clear_pending c) else some m)

unfoldable pub clear_all_pending_requests : ClientsManager → Option ClientsManager
clear_all_pending_requests m = do
  let m' = record m { index_to_client_info = map clear_pending m.index_to_client_info }
  first ← get_elem? m'.index_to_client_info 0
  assert (first.current_pending_request == 0)
  some m'

-- One step of the loop, then the loop.
abbrev pub earlier : ℕ → ClientInfo → ℕ
earlier t c =
    if not (c.time_of_current_pending_request == min_time)
      && ltb c.time_of_current_pending_request t
    then c.time_of_current_pending_request
    else t

pub earliest_from : ℕ → List ClientInfo → ℕ
earliest_from t [] = t
earliest_from t (c ∷ cs) = earliest_from (earlier t c) cs

pub time_of_earliest_pending_request : ClientsManager → ℕ
time_of_earliest_pending_request m = earliest_from max_time m.index_to_client_info

-- The state change of `allocateNewReplyMsgAndWriteToStorage` before the pages are written.
pub note_reply : ClientsManager → ℕ → ℕ → ℕ → Option ClientsManager
note_reply m id req now = do
  c ← client m id
  assert (ltb c.last_seq_number_of_reply req)
  put_client m id (record c { last_seq_number_of_reply = req; latest_reply_time = now })

-- What `loadInfoFromReservedPages` makes of a client whose stored reply has the number given.
unfoldable pub load_info : ClientInfo → ℕ → ClientInfo
load_info c req_seq_num =
    let loaded = record c {
      last_seq_number_of_reply = req_seq_num;
      latest_reply_time = min_time;
    } in
    if not (c.current_pending_request == 0) && leb c.current_pending_request req_seq_num
    then clear_pending loaded
    else loaded
