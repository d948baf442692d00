-- ===== src/Clients/Tests.antt =====
-- Runs of ClientsManager with two clients, over pages that a function keeps.
use concord_rcanopus.Base.{
  ℕ, ◌≡◌, ◌⊎◌, refl, ◌∙◌, true, false, Option, none, some, List, [], ◌∷◌, ◌++◌, arith, ◌==◌,
  if◌then◌else◌, eq→==, ne→==, length, replicate, take, length-take, take-take, length-append,
  length-replicate,
}
use concord_rcanopus.Clients.{
  ClientInfo, ClientsManager, make, new_client, client, index_of, pages_of, note_reply, put_client,
  max_time, no_pending_and_request_can_become_pending, add_pending_request, clear_pending,
  remove_pending_request_of_client, time_of_earliest_pending_request,
}
use concord_rcanopus.Clients.Pending.{Changed, pending, add_pending_request-Changed}
use concord_rcanopus.Clients.Earliest.{
  Earliest, IsTimeOf, time_of_earliest_pending_request-Earliest,
}
use concord_rcanopus.Clients.Replies.{
  StateTransfer, IsStore, reply_body, set_primary_id, allocate_new_reply_msg_and_write_to_storage,
  allocate_msg_with_latest_reply,
}
use concord_rcanopus.Clients.Replies.Latest.{allocate_msg_with_latest_reply-allocate_new}
use concord_rcanopus.Clients.Replies.Others.{allocate_msg_with_latest_reply-other}

-- A page reads as what was saved last, with zeros behind it.
abbrev in_memory : StateTransfer (ℕ → List ℕ)
in_memory = record {
  load_reserved_page = λ p id n. take n (p id ++ replicate n 0);
  save_reserved_page = λ p id bytes j. if j == id then bytes else p j;
  zero_reserved_page = λ p id j. if j == id then [] else p j;
}

take_front : (xs ys : List ℕ) → take (length xs) (xs ++ ys) ≡ xs
take_front [] ys = refl
take_front (x ∷ xs) ys = rw (take_front xs ys) refl

in_memory-IsStore : IsStore in_memory
in_memory-IsStore = record {
  load_length = λ p id n.
      length-take n (p id ++ replicate n 0)
        (omega (arith, length-append (p id) (replicate n 0), length-replicate {A = ℕ} n 0));
  load_saved = λ p id n bytes fits.
      rw (eq→== id id refl) (
        take-take (length bytes) n (bytes ++ replicate n 0) fits
        ∙ take_front bytes (replicate n 0));
  load_other = λ p id other n bytes differs. rw (ne→== other id differs) refl;
}

abbrev two_clients : ClientsManager
two_clients = record {
  my_id = 0;
  size_of_reserved_page = 4096;
  reserved_pages_per_client = 2;
  required_number_of_pages = 4;
  client_ids = 4 ∷ 7 ∷ [];
  index_to_client_info = new_client ∷ new_client ∷ [];
}

made : make 0 (4 ∷ 7 ∷ []) 4096 ≡ some two_clients
unfolding make pages_of
made = refl

seven_known : client two_clients 7 ≡ some new_client
unfolding client index_of
seven_known = refl

can_become : no_pending_and_request_can_become_pending two_clients 7 12 ≡ some true
unfolding no_pending_and_request_can_become_pending client index_of
can_become = refl

add_pending_request-Changed_example :
    (c : ClientInfo) × (m' : ClientsManager) × (m'' : ClientsManager) × (client two_clients 7
      ≡ some c)
    × (add_pending_request two_clients 7 12 99 ≡ some m')
    × Changed two_clients 7 (pending c 12 99) m'
    × ((later : ℕ) → no_pending_and_request_can_become_pending m' 7 later ≡ some false)
    × (remove_pending_request_of_client m' 7 ≡ some m'')
    × Changed m' 7 (clear_pending c) m''
add_pending_request-Changed_example = add_pending_request-Changed two_clients 7 12 99 can_become

time_of_earliest_pending_request-Earliest_example :
    Earliest (time_of_earliest_pending_request two_clients) (new_client ∷ new_client ∷ [])
    × ((time_of_earliest_pending_request two_clients ≡ max_time)
        ⊎ IsTimeOf (time_of_earliest_pending_request two_clients) (new_client ∷ new_client ∷ []))
time_of_earliest_pending_request-Earliest_example =
    time_of_earliest_pending_request-Earliest two_clients

allocate_msg_with_latest_reply-allocate_new_example :
    (m' : ClientsManager) × (p' : ℕ → List ℕ) × (allocate_new_reply_msg_and_write_to_storage
        in_memory two_clients
        (λ i. [])
        7
        12
        3
        (65 ∷ 66 ∷ [])
        99
      ≡ some (m', (p', set_primary_id 3 (reply_body 12 (65 ∷ 66 ∷ [])))))
    × ((primary' : ℕ)
        → allocate_msg_with_latest_reply in_memory m' p' 7 primary'
          ≡ some (set_primary_id primary' (reply_body 12 (65 ∷ 66 ∷ []))))
allocate_msg_with_latest_reply-allocate_new_example =
    allocate_msg_with_latest_reply-allocate_new in_memory in_memory-IsStore two_clients (λ i. []) 7
      12 3 99 (65 ∷ 66 ∷ []) new_client (omega arith) (omega arith) (omega arith) (omega arith)
      seven_known (omega arith)

abbrev State : Type 0
State = ClientsManager × ((ℕ → List ℕ) × List ℕ)

abbrev state_of : Option State → State
state_of none = (two_clients, ((λ i. []), []))
state_of (some z) = z

-- Client 7 has its reply, and then client 4 has one of two pages.
abbrev first_reply : State
first_reply = state_of (
    allocate_new_reply_msg_and_write_to_storage in_memory two_clients (λ i. []) 7 12 3
      (65 ∷ 66 ∷ []) 99)

abbrev second_reply : Option State
second_reply =
    allocate_new_reply_msg_and_write_to_storage in_memory first_reply.0 first_reply.1.0 4 5 3
      (replicate 5000 67) 99

second_stored : second_reply ≡ some (state_of second_reply)
unfolding allocate_new_reply_msg_and_write_to_storage note_reply put_client client index_of
second_stored = refl

allocate_msg_with_latest_reply-other_example :
    allocate_msg_with_latest_reply in_memory
      (state_of second_reply).0
      (state_of second_reply).1.0
      7
      3
    ≡ allocate_msg_with_latest_reply in_memory first_reply.0 first_reply.1.0 7 3
unfolding allocate_new_reply_msg_and_write_to_storage note_reply put_client client index_of pages_of
allocate_msg_with_latest_reply-other_example =
    allocate_msg_with_latest_reply-other in_memory in_memory-IsStore first_reply.0
      (state_of second_reply).0 first_reply.1.0 (state_of second_reply).1.0 4 7 5 3 99 3
      (replicate 5000 67) (state_of second_reply).1.1 (omega arith) refl
      (omega (arith, length-replicate {A = ℕ} 5000 67)) (omega arith) second_stored
