-- ===== src/Sockets.antt =====
-- The sockets of backend/src/infra/socket/index.ts: rooms, the messages of a client, and the bridge from the
-- event bus. A text is the list of its character codes. The check of a token and the codes of the statuses are
-- arguments; the room of its own that the library gives each socket is left out, nothing is sent to it.
pub mod Staff
mod Tests
use transhub.Prelude.{
  ℕ, Bool, true, false, not, ◌&&◌, ◌||◌, Option, none, some, List, [], ◌∷◌, ◌++◌, ◌==◌,
  if◌then◌else◌, map, find_many, update_many,
}
use transhub.Roles.{Role, operator, same_role}

abbrev pub Text : Type 0
Text = List ℕ

abbrev pub same_text : Text → Text → Bool
same_text [] [] = true
same_text [] (d ∷ ds) = false
same_text (c ∷ cs) [] = false
same_text (c ∷ cs) (d ∷ ds) = c == d && same_text cs ds

abbrev pub is_empty : Text → Bool
is_empty [] = true
is_empty (c ∷ cs) = false

-- `operator:…`, `trip:…` and `waybill:…`.
abbrev pub operator_room : Text → Text
operator_room i = 111 ∷ 112 ∷ 101 ∷ 114 ∷ 97 ∷ 116 ∷ 111 ∷ 114 ∷ 58 ∷ i

abbrev pub trip_room : Text → Text
trip_room i = 116 ∷ 114 ∷ 105 ∷ 112 ∷ 58 ∷ i

abbrev pub waybill_room : Text → Text
waybill_room i = 119 ∷ 97 ∷ 121 ∷ 98 ∷ 105 ∷ 108 ∷ 108 ∷ 58 ∷ i

-- What an access token says.
pub record Claims : Type 0 where
  pub role : Role
  pub operator_id : Option Text

pub record Socket : Type 0 where
  pub id : ℕ
  pub token : Option ℕ
  pub user : Option Claims
  pub rooms : List Text

abbrev pub join : Text → Socket → Socket
join room s = record s { rooms = room ∷ s.rooms }

abbrev pub leave : Text → Socket → Socket
unfolding find_many
leave room s = record s { rooms = find_many (λ r. not (same_text room r)) s.rooms }

-- `io.use`: a token that does not verify leaves the socket anonymous.
abbrev pub identify : (ℕ → Option Claims) → Option ℕ → Option Claims
identify verify none = none
identify verify (some token) = verify token

abbrev pub join_company : Option Text → Socket → Socket
join_company none s = s
join_company (some i) s = if is_empty i then s else join (operator_room i) s

abbrev pub join_own : Option Claims → Socket → Socket
join_own none s = s
join_own (some u) s = if same_role u.role operator then join_company u.operator_id s else s

unfoldable pub on_connection : (ℕ → Option Claims) → ℕ → Option ℕ → Socket
on_connection verify i token =
    let user = identify verify token in
    join_own user (record { id = i; token = token; user = user; rooms = [] })

-- What a client can send; a payload that is no text is `malformed`.
pub data Message : Type 0 where
  trip_subscribe trip_unsubscribe track_waybill untrack_waybill : Text → Message
  malformed : Message

unfoldable pub on_message : Message → Socket → Socket
unfolding leave
on_message (trip_subscribe i) s = if is_empty i then s else join (trip_room i) s
on_message (trip_unsubscribe i) s = leave (trip_room i) s
on_message (track_waybill i) s = if is_empty i then s else join (waybill_room i) s
on_message (untrack_waybill i) s = leave (waybill_room i) s
on_message malformed s = s

-- The server's side of a connection.
pub data Event : Type 0 where
  connects : ℕ → Option ℕ → Event
  sends : ℕ → Message → Event
  disconnects : ℕ → Event

abbrev pub has_socket_id : ℕ → Socket → Bool
has_socket_id i s = s.id == i

unfoldable pub on_event : (ℕ → Option Claims) → Event → List Socket → List Socket
unfolding on_connection on_message update_many find_many
on_event verify (connects i token) sockets = on_connection verify i token ∷ sockets
on_event verify (sends i m) sockets = update_many (has_socket_id i) (on_message m) sockets
on_event verify (disconnects i) sockets = find_many (λ s. not (has_socket_id i s)) sockets

unfoldable pub run : (ℕ → Option Claims) → List Event → List Socket → List Socket
unfolding on_event
run verify [] sockets = sockets
run verify (e ∷ es) sockets = run verify es (on_event verify e sockets)

-- The events of the bus that the module listens to.
pub data BusEvent : Type 0 where
  capacity_changed : Text → Bool → ℕ → BusEvent
  booking_created : Text → ℕ → ℕ → BusEvent
  tracking_updated : Text → ℕ → List ℕ → BusEvent

pub data Push : Type 0 where
  push_capacity : Text → Bool → ℕ → Push
  push_booking : ℕ → ℕ → Push
  push_waybill : ℕ → List ℕ → Push

abbrev pub is_joined : Text → List Text → Bool
is_joined room [] = false
is_joined room (r ∷ rs) = same_text room r || is_joined room rs

-- `io.to(room).emit(…)`: the sockets that the push goes to.
abbrev pub emit_to : Text → Push → List Socket → List (ℕ × Push)
unfolding find_many
emit_to room push sockets =
    map (λ (s : Socket). (s.id, push)) (find_many (λ s. is_joined room s.rooms) sockets)

unfoldable pub on_bus : BusEvent → List Socket → List (ℕ × Push)
unfolding emit_to
on_bus (capacity_changed trip full offline) =
    emit_to (trip_room trip) (push_capacity trip full offline)
on_bus (booking_created company booking trip) =
    emit_to (operator_room company) (push_booking booking trip)
on_bus (tracking_updated waybill status events) =
    emit_to (waybill_room waybill) (push_waybill status events)
