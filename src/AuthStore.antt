-- ===== src/AuthStore.antt =====
-- frontend/src/lib/auth.ts and frontend/src/store/authStore.ts: the session in a browser tab. How a token is
-- decoded is an argument; the clock is read in milliseconds.
pub mod Reload
mod Tests
use transhub.Prelude.{
  ℕ, ◌*◌, Bool, true, false, Option, none, some, List, [], ◌∷◌, ltb, if◌then◌else◌,
}

-- The payload of a token; `exp` is in seconds.
pub record User : Type 0 where
  pub id : ℕ
  pub exp : Option ℕ

-- The key of the token, and the one that the store persists to.
pub record LocalStorage : Type 0 where
  pub token : Option ℕ
  pub persisted : Option ℕ

pub record AuthState : Type 0 where
  pub user : Option User
  pub token : Option ℕ
  pub is_authenticated : Bool
  pub has_hydrated : Bool

pub record Tab : Type 0 where
  pub storage : LocalStorage
  pub state : AuthState

abbrev pub is_expired : ℕ → Option ℕ → Bool
is_expired now none = true
is_expired now (some e) = ltb (e * 1000) now

-- The user, and whether the token is cleared.
abbrev pub checked : ℕ → Option User → Option User × Bool
checked now none = (none, false)
checked now (some u) = if is_expired now u.exp then (none, true) else (some u, false)

abbrev pub decoded : (ℕ → Option User) → ℕ → Option ℕ → Option User × Bool
decoded decode now none = (none, false)
decoded decode now (some t) = checked now (decode t)

-- `getUser`.
unfoldable pub get_user : (ℕ → Option User) → ℕ → LocalStorage → Option User × LocalStorage
get_user decode now l =
    let r = decoded decode now l.token in (r.0, record l { token = if r.1 then none else l.token })

-- `login`: the state is persisted on every `set`.
unfoldable pub login : (ℕ → Option User) → ℕ → ℕ → Tab → Tab
unfolding get_user
login decode now t tab =
    let r = get_user decode now (record tab.storage { token = some t }) in
    record {
      storage = record r.1 { persisted = some t };
      state = record tab.state { token = some t; user = r.0; is_authenticated = true };
    }

unfoldable pub logout : Tab → Tab
logout tab = record {
  storage = record { token = none; persisted = none };
  state = record tab.state { token = none; user = none; is_authenticated = false };
}

abbrev pub initial_state : AuthState
initial_state = record { user = none; token = none; is_authenticated = false; has_hydrated = false }

-- `onRehydrateStorage`, on a token that was persisted.
abbrev pub rehydrated : ℕ → Option User → LocalStorage → Tab
rehydrated t (some u) l = record {
  storage = record l { persisted = some t };
  state = record { user = some u; token = some t; is_authenticated = true; has_hydrated = true };
}
rehydrated t none l = record {
  storage = record { token = none; persisted = none };
  state = record initial_state { has_hydrated = true };
}

abbrev pub hydrate_from : (ℕ → Option User) → ℕ → Option ℕ → LocalStorage → Tab
unfolding get_user
hydrate_from decode now none l = record {
  storage = record l { persisted = none };
  state = record initial_state { has_hydrated = true };
}
hydrate_from decode now (some t) l = let r = get_user decode now l in rehydrated t r.0 r.1

-- A reload of the tab.
unfoldable pub hydrate : (ℕ → Option User) → ℕ → LocalStorage → Tab
unfolding hydrate_from
hydrate decode now l = hydrate_from decode now l.persisted l

-- What a tab does, with the clock where it is read.
pub data Action : Type 0 where
  logs_in : ℕ → ℕ → Action
  logs_out : Action
  reloads : ℕ → Action

unfoldable pub act : (ℕ → Option User) → Action → Tab → Tab
unfolding login logout hydrate
act decode (logs_in now t) tab = login decode now t tab
act decode logs_out tab = logout tab
act decode (reloads now) tab = hydrate decode now tab.storage

unfoldable pub run : (ℕ → Option User) → List Action → Tab → Tab
unfolding act
run decode [] tab = tab
run decode (a ∷ later) tab = run decode later (act decode a tab)

-- The first load, of a browser in which nothing is stored.
abbrev pub first_load : Tab
first_load = record {
  storage = record { token = none; persisted = none };
  state = record initial_state { has_hydrated = true };
}
