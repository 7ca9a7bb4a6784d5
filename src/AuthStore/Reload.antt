-- ===== src/AuthStore/Reload.antt =====
-- The session after a reload.
use transhub.Prelude.{
  ℕ, ◌≡◌, ◌⊎◌, refl, inl, inr, sym, ap, subst, ◌∙◌, Bool, true, false, not, Option, none, some,
  List, [], ◌∷◌, if◌then◌else◌, arith, Bool-cases,
}
use transhub.AuthStore.{
  User, LocalStorage, Tab, is_expired, checked, get_user, login, logout, hydrate, hydrate_from,
  rehydrated, Action, logs_in, logs_out, reloads, act, run, first_load,
}

-- The key of the token holds the persisted one, or nothing.
abbrev IsAligned : LocalStorage → Type 0
IsAligned l = (l.token ≡ l.persisted) ⊎ (l.token ≡ none)

kept : (c : Bool) (t : Option ℕ) → ((if c then none else t) ≡ t) ⊎ ((if c then none else t) ≡ none)
kept true t = inr refl
kept false t = inl refl

abbrev pub is_live_user : ℕ → Option User → Bool
is_live_user now none = false
is_live_user now (some u) = not (is_expired now u.exp)

-- The token decodes to a user and has not expired.
abbrev pub is_live : (ℕ → Option User) → ℕ → Option ℕ → Bool
is_live decode now none = false
is_live decode now (some t) = is_live_user now (decode t)

-- A tab in which the user of a token is logged in.
abbrev pub session : ℕ → User → Tab
session t u = record {
  storage = record { token = some t; persisted = some t };
  state = record { user = some u; token = some t; is_authenticated = true; has_hydrated = true };
}

-- The token that is persisted is of this user and has not expired.
abbrev pub IsLive : (ℕ → Option User) → ℕ → Option ℕ → ℕ → User → Type 0
IsLive decode now persisted t u =
    (persisted ≡ some t) × (decode t ≡ some u) × (is_expired now u.exp ≡ false)

abbrev pub IsReloaded : (ℕ → Option User) → ℕ → LocalStorage → Tab → Type 0
IsReloaded decode now l tab =
    ((is_live decode now l.token ≡ false) × (tab ≡ first_load))
    ⊎ ((t : ℕ) × (u : User) × IsLive decode now l.persisted t u × (tab ≡ session t u))

-- The second step of a reload, once the token has been decoded.
reloaded :
    (now t : ℕ) (u : Option User)
    → ((is_live_user now u ≡ false)
        × (rehydrated t
              (checked now u).0
              (record { token = if (checked now u).1 then none else some t; persisted = some t })
            ≡ first_load))
      ⊎ ((v : User) × (u ≡ some v)
          × (is_expired now v.exp ≡ false)
          × (rehydrated t
                (checked now u).0
                (record { token = if (checked now u).1 then none else some t; persisted = some t })
              ≡ session t v))
reloaded now t none = inl (refl, refl)
reloaded now t (some u) = elim (Bool-cases (is_expired now u.exp)) [
  | inl e ↦ inl (ground (arith, e), rw e refl)
  | inr e ↦ inr (u, refl, e, rw e refl)
]

some_injective : {a b : ℕ} → some a ≡ some b → a ≡ b
some_injective e = cc

hydrate-IsReloaded :
    (decode : ℕ → Option User) (now : ℕ) (token persisted : Option ℕ)
    → IsAligned (record { token = token; persisted = persisted })
    → IsReloaded decode now
        (record { token = token; persisted = persisted })
        (hydrate decode now (record { token = token; persisted = persisted }))
unfolding hydrate hydrate_from get_user
hydrate-IsReloaded decode now none none h = inl (refl, refl)
hydrate-IsReloaded decode now (some t) none h = elim h [
  | inl e ↦ ground (arith, e)
  | inr e ↦ ground (arith, e)
]
hydrate-IsReloaded decode now none (some p) h = inl (refl, refl)
hydrate-IsReloaded decode now (some t) (some p) h = elim h [
  | inl same ↦
      let e : t ≡ p = some_injective same in
      subst
        (λ (k : ℕ).
          IsReloaded decode now (record { token = some t; persisted = some k })
            (hydrate decode now (record { token = some t; persisted = some k })))
        e
        (elim (reloaded now t (decode t)) [
          | inl out ↦ inl out
          | inr (u, d, live, into) ↦ inr (t, u, (refl, d, live), into)
        ])
  | inr e ↦ ground (arith, e)
]

run-IsAligned :
    (decode : ℕ → Option User) (actions : List Action) (tab : Tab)
    → IsAligned tab.storage
    → IsAligned (run decode actions tab).storage
unfolding run act login logout get_user
run-IsAligned decode [] tab h = h
run-IsAligned decode (logs_in now t ∷ later) tab h =
    run-IsAligned decode later _ (kept (checked now (decode t)).1 (some t))
run-IsAligned decode (logs_out ∷ later) tab h = run-IsAligned decode later _ (inl refl)
run-IsAligned decode (reloads now ∷ later) tab h =
    run-IsAligned decode later _
      (elim (hydrate-IsReloaded decode now tab.storage.token tab.storage.persisted h) [
        | inl (d, e) ↦
            inl
              (ap (λ (x : Tab). x.storage.token) e ∙ sym (ap (λ (x : Tab). x.storage.persisted) e))
        | inr (t, u, live, e) ↦
            inl
              (ap (λ (x : Tab). x.storage.token) e ∙ sym (ap (λ (x : Tab). x.storage.persisted) e))
      ])

-- After any logins, logouts and reloads in a tab that began with nothing stored, a reload at a time comes to
-- one of two: the key of the token held none that decodes to a user and has not expired, nobody is logged in and
-- nothing is stored; or the token that was persisted is such a one, its user is logged in, and both keys hold it.
pub reload_lem :
    (decode : ℕ → Option User) (actions : List Action) (now : ℕ)
    → IsReloaded decode now
        (run decode actions first_load).storage
        (hydrate decode now (run decode actions first_load).storage)
reload_lem decode actions now =
    let l = (run decode actions first_load).storage in
    hydrate-IsReloaded decode now l.token l.persisted
      (run-IsAligned decode actions first_load (inl refl))
