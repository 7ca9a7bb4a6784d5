-- ===== src/Inventory/Expiry.antt =====
-- How holds end: the sweeper, and the per-hold expiry job.
use transhub.Prelude.{
  ℕ, ◌+◌, ◌<◌, ◌≡◌, none, some, [], ◌∷◌, Option-cases, refl, ◌∙◌, ◌⊎◌, inl, inr, Bool, true, false,
  ◌||◌, List, arith, if◌then◌else◌, Bool-cases, length, includes, In, EachRow, update_many,
  update_many-EachRow, update_many-none, count_where, count_where-none, count_where-erased,
  length-find_many,
}
use transhub.Errors.{returns, throws, prisma_fault}
use transhub.Inventory.{
  Seat, held, available, is_held, release, is_specific_hold, is_lapsed, release_specific_hold,
  sweep_expired_holds, held_seat_ids,
}
use transhub.Inventory.Service.{Store, HoldExpiryJob, process_hold_expiry}
use transhub.Inventory.Claim.{is_live, length-ids}

-- A row that meets the test is released, the others stay.
abbrev pub ReleaseMove : (Seat → Bool) → Seat → Seat → Type 0
ReleaseMove p s t = ((p s ≡ true) × (t ≡ release s)) ⊎ ((p s ≡ false) × (t ≡ s))

release_row : (p : Seat → Bool) (s : Seat) → ReleaseMove p s (if p s then release s else s)
release_row p s = elim (Bool-cases (p s)) [ inl e ↦ inl (e, rw e) | inr e ↦ inr (e, rw e) ]

-- A hold whose time is over: the seat is held, until an instant before `now`.
pub data HasLapsed (now : ℕ) : Seat → Type 0 where
  lapsed :
      {s : Seat} (until : ℕ)
      → s.status ≡ held
      → s.held_until ≡ some until
      → until < now
      → HasLapsed now s

is_lapsed-HasLapsed : (now : ℕ) (s : Seat) → is_lapsed now s ≡ true → HasLapsed now s
is_lapsed-HasLapsed now s h = elim (Option-cases s.held_until) [
  | inl e ↦ ground (arith, e, h)
  | inr (until, e) ↦ lapsed until (ground arith) e (ground (arith, e, h))
]

HasLapsed-is_lapsed : (now : ℕ) (s : Seat) → HasLapsed now s → is_lapsed now s ≡ true
HasLapsed-is_lapsed now s (lapsed until e f g) = rw (e, f) (ground (arith, g))

-- A seat whose hold has lapsed becomes available, and every other seat stays as it is.
abbrev pub SweepMove : ℕ → Seat → Seat → Type 0
SweepMove now s t =
    (HasLapsed now s × (t ≡ record s { status = available; held_until = none; held_by = none }))
    ⊎ ((¬ HasLapsed now s) × (t ≡ s))

abbrev pub count_held : List Seat → ℕ
count_held = count_where (λ (s : Seat). is_held s.status)

-- What a sweep at `now` does to the table: the number that it reports is by how many the held seats are
-- fewer.
abbrev pub Swept : ℕ → List Seat → ℕ × List Seat → Type 0
Swept now seats (n, ss) = EachRow (SweepMove now) seats ss × (count_held seats ≡ n + count_held ss)

sweep_row : (now : ℕ) (s : Seat) → SweepMove now s (if is_lapsed now s then release s else s)
unfolding release
sweep_row now s = elim (Bool-cases (is_lapsed now s)) [
  | inl e ↦ inl (is_lapsed-HasLapsed now s e, rw e refl)
  | inr e ↦ inr (λ h. cc (e, HasLapsed-is_lapsed now s h), rw e refl)
]

count_held-swept :
    (now : ℕ) (seats : List Seat)
    → count_held seats
      ≡ count_where (is_lapsed now) seats + count_held (update_many (is_lapsed now) release seats)
unfolding release count_where update_many
count_held-swept now [] = refl
count_held-swept now (s ∷ ss) = ground (arith, count_held-swept now ss)

swept :
    (now : ℕ) (seats : List Seat)
    → Swept now seats (count_where (is_lapsed now) seats, update_many (is_lapsed now) release seats)
swept now seats = (
  update_many-EachRow _ (is_lapsed now) release seats (λ s m. sweep_row now s),
  count_held-swept now seats,
)

-- The sweep succeeds if the database answers one of the three attempts, and else fails. When it
-- succeeds, every seat that is held until an instant before now becomes available and every other seat
-- stays as it is, and it reports by how many the held seats are fewer.
pub sweep_expired_holds_lem :
    (up : ℕ → Bool) (now : ℕ) (seats : List Seat)
    → ((up 1 || (up 2 || up 3)) ≡ true
        → (r : ℕ × List Seat) × (sweep_expired_holds up now seats ≡ returns r) × Swept now seats r)
      × ((up 1 || (up 2 || up 3)) ≡ false → sweep_expired_holds up now seats ≡ throws prisma_fault)
unfolding sweep_expired_holds
sweep_expired_holds_lem up now seats = (
  λ h. (
    (count_where (is_lapsed now) seats, update_many (is_lapsed now) release seats),
    ground arith,
    swept now seats,
  ),
  λ h. ground arith,
)

module _ (seat_ids : List ℕ) (trip user : ℕ) where
  -- The expiry job releases exactly the seats that it names and that its user still holds on the
  -- trip, so a seat that is booked or that another user holds by now stays as it is; run again, it
  -- releases nothing.
  pub release_specific_hold_lem :
      (seats : List Seat)
      → let (n, ss) = release_specific_hold seat_ids trip user seats in
        EachRow (ReleaseMove (is_specific_hold seat_ids trip user)) seats ss
        × ((s : Seat) → In s ss → is_specific_hold seat_ids trip user s ≡ false)
        × ((release_specific_hold seat_ids trip user ss).0 ≡ 0)
  unfolding release_specific_hold release
  release_specific_hold_lem seats = (
    update_many-EachRow _ mine release seats (λ s m. release_row mine s),
    left,
    count_where-none mine (update_many mine release seats) left,
  )
    where
      mine : Seat → Bool
      mine = is_specific_hold seat_ids trip user

      left : (s : Seat) → In s (update_many mine release seats) → mine s ≡ false
      left s m = update_many-none mine release seats s (λ t. ground arith) m

-- The job does not look at `heldUntil`. If it names every seat that its user holds on the trip at
-- `now`, nothing of that hold is left once it has run, however long the hold still had to run: so
-- the job of a first hold ends a second hold of the same user on the same seats.
process_hold_expiry_early :
    (redis_up : Bool) (job : HoldExpiryJob) (store : Store) (now : ℕ)
    → ((s : Seat)
        → In s store.seats
        → is_live job.trip_id job.user_id now s ≡ true
        → includes job.seat_ids s.id ≡ true)
    → length
        (held_seat_ids job.trip_id job.user_id now (process_hold_expiry redis_up job store).seats)
      ≡ 0
unfolding process_hold_expiry held_seat_ids release
process_hold_expiry_early redis_up job store now named =
    length-ids _
    ∙ length-find_many live _
    ∙ count_where-erased live mine release store.seats (λ s m. ground (arith, named s m))
  where
    live : Seat → Bool
    live = is_live job.trip_id job.user_id now

    mine : Seat → Bool
    mine = is_specific_hold job.seat_ids job.trip_id job.user_id
