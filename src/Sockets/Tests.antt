-- ===== src/Sockets/Tests.antt =====
-- Staff of a company, a passenger who asks for a trip and for a room that looks like the company's, and a socket
-- with a stale token.
use transhub.Prelude.{
  ℕ, ◌≡◌, ◌==◌, refl, Option, none, some, List, [], ◌∷◌, if◌then◌else◌, map, find_many, update_many,
}
use transhub.Roles.{operator, passenger}
use transhub.Sockets.{
  Claims, Socket, Event, connects, sends, disconnects, trip_subscribe, trip_unsubscribe,
  operator_room, run, on_event, on_connection, on_message, on_bus, emit_to, leave, booking_created,
  push_booking,
}
use transhub.Sockets.Staff.{booking_news_reaches_staff, is_staff_socket}

abbrev verify : ℕ → Option Claims
verify token =
    if token == 1
    then some (record { role = operator; operator_id = some (65 ∷ []) })
    else if token == 2
    then some (record { role = passenger; operator_id = none })
    else none

abbrev events : List Event
events =
    connects 10 (some 1)
    ∷ connects 11 (some 2)
    ∷ connects 12 (some 3)
    ∷ sends 11 (trip_subscribe (operator_room (65 ∷ [])))
    ∷ sends 10 (trip_unsubscribe (65 ∷ []))
    ∷ disconnects 12
    ∷ []

-- Only the staff hears.
only_staff :
    on_bus (booking_created (65 ∷ []) 900 5) (run verify events []) ≡ (10, push_booking 900 5) ∷ []
unfolding run on_event on_connection on_message on_bus emit_to leave find_many update_many
only_staff = refl

booking_news_reaches_staff_example :
    on_bus (booking_created (65 ∷ []) 900 5) (run verify events [])
    ≡ map
        (λ (s : Socket). (s.id, push_booking 900 5))
        (find_many (is_staff_socket verify (65 ∷ [])) (run verify events []))
booking_news_reaches_staff_example = booking_news_reaches_staff verify events (65 ∷ []) 900 5
