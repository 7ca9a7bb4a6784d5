-- ===== src/Sockets/Staff.antt =====
-- Whom the news of a booking reaches.
use transhub.Prelude.{
  ℕ, ◌≡◌, refl, ap, inl, inr, ◌∙◌, Bool, true, false, not, ◌&&◌, Option, none, some, List, [], ◌∷◌,
  ◌==◌, arith, map, find_many, All, All-update_many, All-find_many, Bool-cases, sym,
}
use transhub.Roles.{operator, same_role}
use transhub.Sockets.{
  Text, same_text, is_empty, operator_room, trip_room, waybill_room, Claims, Socket, leave,
  identify, on_connection, Message, trip_subscribe, trip_unsubscribe, track_waybill,
  untrack_waybill, malformed, on_message, Event, connects, sends, disconnects, has_socket_id,
  on_event, run, booking_created, push_booking, is_joined, on_bus, emit_to, join_own, join_company,
}

abbrev pub is_company : Text → Option Text → Bool
is_company o none = false
is_company o (some i) = not (is_empty i) && same_text o i

-- The claims are those of an operator's account with this company.
abbrev pub is_staff : Text → Option Claims → Bool
is_staff o none = false
is_staff o (some u) = same_role u.role operator && is_company o u.operator_id

abbrev pub is_staff_socket : (ℕ → Option Claims) → Text → Socket → Bool
is_staff_socket verify o s = is_staff o (identify verify s.token)

-- The rooms of companies that a socket is in are those of the company of its token.
abbrev IsOwn : (ℕ → Option Claims) → Socket → Type 0
IsOwn verify s = (o : Text) → is_joined (operator_room o) s.rooms ≡ is_staff_socket verify o s

abbrev initial : Text → ℕ
initial [] = 0
initial (c ∷ cs) = c

apart :
    (left room r : Text)
    → (initial left == initial room) ≡ false
    → same_text left r ≡ true
    → same_text room r ≡ false
apart [] [] r h e = ground (arith, h)
apart [] (d ∷ ds) [] h e = refl
apart [] (d ∷ ds) (x ∷ xs) h e = ground (arith, e)
apart (c ∷ cs) [] [] h e = ground (arith, e)
apart (c ∷ cs) [] (x ∷ xs) h e = refl
apart (c ∷ cs) (d ∷ ds) [] h e = refl
apart (c ∷ cs) (d ∷ ds) (x ∷ xs) h e = ground (arith, h, e)

-- Leaving a room that no text shares with another one.
leave-is_joined :
    (left room : Text) (rooms : List Text)
    → ((r : Text) → same_text left r ≡ true → same_text room r ≡ false)
    → is_joined room (find_many (λ r. not (same_text left r)) rooms) ≡ is_joined room rooms
unfolding find_many
leave-is_joined left room [] h = refl
leave-is_joined left room (r ∷ rs) h = ground (arith, h r, leave-is_joined left room rs h)

on_message-IsOwn :
    (verify : ℕ → Option Claims) (m : Message) (s : Socket)
    → IsOwn verify s
    → IsOwn verify (on_message m s)
unfolding on_message leave
on_message-IsOwn verify (trip_subscribe []) s h o = h o
on_message-IsOwn verify (trip_subscribe (c ∷ i)) s h o = h o
on_message-IsOwn verify (trip_unsubscribe i) s h o =
    leave-is_joined (trip_room i) (operator_room o) s.rooms
      (λ r e. apart (trip_room i) (operator_room o) r refl e)
    ∙ h o
on_message-IsOwn verify (track_waybill []) s h o = h o
on_message-IsOwn verify (track_waybill (c ∷ i)) s h o = h o
on_message-IsOwn verify (untrack_waybill i) s h o =
    leave-is_joined (waybill_room i) (operator_room o) s.rooms
      (λ r e. apart (waybill_room i) (operator_room o) r refl e)
    ∙ h o
on_message-IsOwn verify malformed s h o = h o

abbrev fresh : ℕ → Option ℕ → Option Claims → Socket
fresh i token user = record { id = i; token = token; user = user; rooms = [] }

joined_company :
    (i : ℕ) (token : Option ℕ) (user : Option Claims) (company : Option Text) (o : Text)
    → (is_joined (operator_room o) (join_company company (fresh i token user)).rooms
        ≡ is_company o company)
      × ((join_company company (fresh i token user)).token ≡ token)
joined_company i token user none o = (refl, refl)
joined_company i token user (some []) o = (refl, refl)
joined_company i token user (some (c ∷ w)) o = (ground arith, refl)

joined_own :
    (i : ℕ) (token : Option ℕ) (user claims : Option Claims) (o : Text)
    → (is_joined (operator_room o) (join_own claims (fresh i token user)).rooms ≡ is_staff o claims)
      × ((join_own claims (fresh i token user)).token ≡ token)
joined_own i token user none o = (refl, refl)
joined_own i token user (some u) o = elim (Bool-cases (same_role u.role operator)) [
  | inl e ↦ rw e (joined_company i token user u.operator_id o)
  | inr e ↦ rw e (refl, refl)
]

connected-IsOwn :
    (verify : ℕ → Option Claims) (i : ℕ) (token : Option ℕ)
    → IsOwn verify (on_connection verify i token)
unfolding on_connection
connected-IsOwn verify i token o =
    let user = identify verify token in
    let (joined, same) = joined_own i token user user o in
    joined ∙ sym (ap (λ t. is_staff o (identify verify t)) same)

run-IsOwn :
    (verify : ℕ → Option Claims) (es : List Event) (sockets : List Socket)
    → All (IsOwn verify) sockets
    → All (IsOwn verify) (run verify es sockets)
unfolding run on_event
run-IsOwn verify [] sockets h = h
run-IsOwn verify (connects i token ∷ es) sockets h =
    run-IsOwn verify es _ (connected-IsOwn verify i token, h)
run-IsOwn verify (sends i m ∷ es) sockets h = run-IsOwn verify es _ (
    All-update_many (IsOwn verify) (has_socket_id i) (on_message m) sockets
      (λ s e own. on_message-IsOwn verify m s own) h)
run-IsOwn verify (disconnects i ∷ es) sockets h =
    run-IsOwn verify es _ (All-find_many (IsOwn verify) (λ s. not (has_socket_id i s)) sockets h)

reaches_staff :
    (verify : ℕ → Option Claims) (o : Text) (sockets : List Socket)
    → All (IsOwn verify) sockets
    → find_many (λ s. is_joined (operator_room o) s.rooms) sockets
      ≡ find_many (is_staff_socket verify o) sockets
unfolding find_many
reaches_staff verify o [] h = refl
reaches_staff verify o (s ∷ ss) h = ground (arith, h.0 o, reaches_staff verify o ss h.1)

-- After any connections, messages and disconnections: the news of a booking goes to exactly the open sockets
-- whose token verifies as an operator of the company, whatever rooms their clients have asked for or left.
pub booking_news_reaches_staff :
    (verify : ℕ → Option Claims) (es : List Event) (company : Text) (booking trip : ℕ)
    → on_bus (booking_created company booking trip) (run verify es [])
      ≡ map
          (λ (s : Socket). (s.id, push_booking booking trip))
          (find_many (is_staff_socket verify company) (run verify es []))
unfolding on_bus emit_to
booking_news_reaches_staff verify es company booking trip =
    ap (map (λ (s : Socket). (s.id, push_booking booking trip)))
      (reaches_staff verify company (run verify es []) (run-IsOwn verify es [] tt))
