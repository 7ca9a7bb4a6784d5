-- ===== src/Inventory/Service.antt =====
-- inventory.service.ts, and the job processors of bookings/bookings.job.ts.
-- Redis and BullMQ are best-effort: whether they answer is an argument, and so is the clock.
use transhub.Prelude.{
  ℕ, ◌+◌, ◌*◌, Bool, false, not, ◌&&◌, List, [], ◌∷◌, ◌++◌, map, ◌==◌, if◌then◌else◌, find_many,
}
use transhub.Errors.{Result, returns, ◌>>=◌}
use transhub.Inventory.{Seat, release_specific_hold, sweep_expired_holds}
use transhub.Inventory.Claim.{hold_transaction}

abbrev pub hold_ttl_sec : ℕ
hold_ttl_sec = 600

-- `seat_hold:<trip>:<seat>` and `user_hold:<user>`.
pub data HoldKey : Type 0 where
  seat_hold : ℕ → ℕ → HoldKey
  user_hold : ℕ → HoldKey

pub data HoldValue : Type 0 where
  held_for : ℕ → HoldValue
  seats_of : List (ℕ × ℕ) → HoldValue

abbrev pub same_key : HoldKey → HoldKey → Bool
same_key (seat_hold t s) (seat_hold t' s') = t == t' && s == s'
same_key (user_hold u) (user_hold u') = u == u'
same_key _ _ = false

pub record Entry : Type 0 where
  pub key : HoldKey
  pub value : HoldValue
  pub ttl : ℕ

pub record HoldExpiryJob : Type 0 where
  pub user_id : ℕ
  pub trip_id : ℕ
  pub seat_ids : List ℕ
  pub delay : ℕ

pub record HoldResult : Type 0 where
  pub hold_id : ℕ × ℕ × ℕ
  pub expires_at : ℕ
  pub ttl_seconds : ℕ
  pub trip_id : ℕ
  pub quantity : ℕ

-- The seats table, the Redis keys and the queue.
pub record Store : Type 0 where
  pub seats : List Seat
  pub cache : List Entry
  pub jobs : List HoldExpiryJob

-- SET key value EX ttl, and DEL key.
unfoldable pub cache_set : HoldKey → HoldValue → ℕ → List Entry → List Entry
cache_set k v ttl c =
    record { key = k; value = v; ttl = ttl } ∷ find_many (λ e. not (same_key e.key k)) c

unfoldable pub cache_del : HoldKey → List Entry → List Entry
cache_del k c = find_many (λ e. not (same_key e.key k)) c

set_seat_keys : ℕ → ℕ → List ℕ → List Entry → List Entry
unfolding cache_set
set_seat_keys trip user [] c = c
set_seat_keys trip user (s ∷ ss) c =
    set_seat_keys trip user ss (cache_set (seat_hold trip s) (held_for user) hold_ttl_sec c)

del_seat_keys : ℕ → List ℕ → List Entry → List Entry
unfolding cache_del
del_seat_keys trip [] c = c
del_seat_keys trip (s ∷ ss) c = del_seat_keys trip ss (cache_del (seat_hold trip s) c)

-- The two pipelines; one that fails writes nothing.
write_hold_keys : Bool → ℕ → ℕ → List ℕ → List Entry → List Entry
unfolding set_seat_keys cache_set
write_hold_keys redis_up trip user seat_ids c =
    if redis_up
    then cache_set (user_hold user) (seats_of (map (λ s. (trip, s)) seat_ids)) hold_ttl_sec
        (set_seat_keys trip user seat_ids c)
    else c

clear_hold_keys : Bool → ℕ → ℕ → List ℕ → List Entry → List Entry
unfolding del_seat_keys cache_del
clear_hold_keys redis_up trip user seat_ids c =
    if redis_up then cache_del (user_hold user) (del_seat_keys trip seat_ids c) else c

-- Redis and the queue may each be down; `now` and `later` are the two readings of the clock, and
-- `locked` the rows that other transactions have locked.
unfoldable pub hold_seats :
    Bool → Bool → ℕ → ℕ → List ℕ → ℕ → ℕ → ℕ → Store → Result (HoldResult × Store)
unfolding hold_transaction write_hold_keys
hold_seats redis_up queue_up now later locked trip quantity user store = do
  let expires_at = now + hold_ttl_sec * 1000
  r ← hold_transaction trip quantity user expires_at locked store.seats
  let job : HoldExpiryJob = record {
    user_id = user;
    trip_id = trip;
    seat_ids = r.0;
    delay = hold_ttl_sec * 1000;
  }
  returns (
    record {
      hold_id = (user, trip, later);
      expires_at = expires_at;
      ttl_seconds = hold_ttl_sec;
      trip_id = trip;
      quantity = quantity;
    },
    record {
      seats = r.1;
      cache = write_hold_keys redis_up trip user r.0 store.cache;
      jobs = if queue_up then store.jobs ++ job ∷ [] else store.jobs;
    },
  )

unfoldable pub release_expired_hold : Bool → List ℕ → ℕ → ℕ → Store → Store
unfolding release_specific_hold clear_hold_keys
release_expired_hold redis_up seat_ids trip user store = record store {
  seats = (release_specific_hold seat_ids trip user store.seats).1;
  cache = clear_hold_keys redis_up trip user seat_ids store.cache;
}

unfoldable pub release_hold_keys : Bool → ℕ → List ℕ → ℕ → Store → Store
unfolding clear_hold_keys
release_hold_keys redis_up trip seat_ids user store = record store {
  cache = clear_hold_keys redis_up trip user seat_ids store.cache;
}

unfoldable pub sweep_holds : (ℕ → Bool) → ℕ → Store → Result (ℕ × Store)
unfolding sweep_expired_holds
sweep_holds up now store = do
  r ← sweep_expired_holds up now store.seats
  returns (r.0, record store { seats = r.1 })

unfoldable pub process_hold_expiry : Bool → HoldExpiryJob → Store → Store
unfolding release_expired_hold
process_hold_expiry redis_up job store =
    release_expired_hold redis_up job.seat_ids job.trip_id job.user_id store

unfoldable pub process_seat_sweep : (ℕ → Bool) → ℕ → Store → Result Store
unfolding sweep_holds
process_seat_sweep up now store = do r ← sweep_holds up now store; returns r.1
