-- ===== src/AuthStore/Tests.antt =====
-- A login, a reload while the token is good, and one after it has expired.
use transhub.Prelude.{ℕ, ◌≡◌, refl, ◌==◌, Option, none, some, List, [], ◌∷◌, if◌then◌else◌}
use transhub.AuthStore.{
  User, Action, logs_in, logs_out, reloads, run, act, login, logout, hydrate, hydrate_from,
  get_user, first_load,
}
use transhub.AuthStore.Reload.{reload_lem, IsReloaded, session}

abbrev decode : ℕ → Option User
decode t = if t == 7 then some (record { id = 42; exp = some 600 }) else none

abbrev actions : List Action
actions = logs_in 100000 6 ∷ logs_out ∷ logs_in 200000 7 ∷ reloads 300000 ∷ []

still_in :
    hydrate decode 600000 (run decode actions first_load).storage
    ≡ session 7 (record { id = 42; exp = some 600 })
unfolding run act login logout hydrate hydrate_from get_user
still_in = refl

expired : hydrate decode 600001 (run decode actions first_load).storage ≡ first_load
unfolding run act login logout hydrate hydrate_from get_user
expired = refl

reload_lem_example :
    IsReloaded decode 600000
      (run decode actions first_load).storage
      (hydrate decode 600000 (run decode actions first_load).storage)
reload_lem_example = reload_lem decode actions 600000
