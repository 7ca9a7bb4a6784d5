-- ===== src/RateLimit/Window.antt =====
-- How many requests get through in the time of one window.
use transhub.Prelude.{
  lt→ltb, ℕ, ◌+◌, ◌-◌, ◌*◌, ◌<◌, ◌≤◌, ◌≡◌, refl, sym, ap, inl, inr, subst, Bool, true, false,
  Option, none, some, List, [], ◌∷◌, ltb, if◌then◌else◌, All, arith, Bool-cases, Option-cases,
  ==_iff, ==_refl,
}
use transhub.Errors.{Result, returns, throws}
use transhub.RateLimit.{
  user_id, ip, unknown, RateLimitOptions, Identity, same_identity, Counter, Counters, live,
  incremented, put, incr_with_expire, rate_limit,
}

-- A request: when, by whom, and whether Redis answers for the TTL.
pub record Hit : Type 0 where
  pub now : ℕ
  pub identity : Identity
  pub ttl_up : Bool

abbrev admits : {A : Type 0} → Result A → ℕ
admits (throws t) = 0
admits (returns a) = 1

-- How many of the requests of an identity one limiter lets through, with Redis up.
unfoldable pub admitted : RateLimitOptions → Identity → List Hit → Counters → ℕ
unfolding rate_limit
admitted opts i [] counters = 0
admitted opts i (h ∷ hs) counters =
    let r = rate_limit true true h.ttl_up opts h.now h.identity counters in
    let rest = admitted opts i hs r.1 in
    (if same_identity i h.identity then admits r.0 else 0) + rest

-- All within one window from `start`.
abbrev pub IsWithin : RateLimitOptions → ℕ → Hit → Type 0
IsWithin opts start h = (start ≤ h.now) × (h.now < start + opts.window_sec)

-- What a counter that outlasts the window lets through.
abbrev left : RateLimitOptions → Option Counter → ℕ
left opts none = opts.limit
left opts (some c) = opts.limit - c.count

abbrev Outlasts : ℕ → Option Counter → Type 0
Outlasts end none = Unit {0}
Outlasts end (some c) = end ≤ c.expires_at

same_identity_eq : (i j : Identity) → same_identity i j ≡ true → i ≡ j
same_identity_eq (user_id a) (user_id b) e = ap user_id ((==_iff a b).0 e)
same_identity_eq (ip a) (ip b) e = ap ip ((==_iff a b).0 e)
same_identity_eq unknown unknown e = refl
same_identity_eq (user_id a) (ip b) e = cc
same_identity_eq (user_id a) unknown e = cc
same_identity_eq (ip a) (user_id b) e = cc
same_identity_eq (ip a) unknown e = cc
same_identity_eq unknown (user_id b) e = cc
same_identity_eq unknown (ip b) e = cc

same_identity_refl : (i : Identity) → same_identity i i ≡ true
same_identity_refl (user_id a) = ==_refl a
same_identity_refl (ip a) = ==_refl a
same_identity_refl unknown = refl

abbrev passes : RateLimitOptions → Counter → ℕ
passes opts c = if ltb opts.limit c.count then 0 else 1

still_live :
    (end now : ℕ) (c : Counter) → end ≤ c.expires_at → now < end → live now (some c) ≡ some c
still_live end now c o before = rw (lt→ltb now c.expires_at (omega arith)) refl

-- A counter that outlasts a window does so after a request of that window.
hit-Outlasts :
    (window end now : ℕ) (c : Option Counter)
    → Outlasts end c
    → now < end
    → end ≤ now + window
    → end ≤ (incremented window now (live now c)).expires_at
hit-Outlasts window end now none o before after = after
hit-Outlasts window end now (some c) o before after = rw (still_live end now c o before) o

-- What gets through before and after a request of the window.
left_hit :
    (opts : RateLimitOptions) (end now n : ℕ) (c : Option Counter)
    → Outlasts end c
    → now < end
    → n ≤ left opts (some (incremented opts.window_sec now (live now c)))
    → passes opts (incremented opts.window_sec now (live now c)) + n ≤ left opts c
left_hit opts end now n none o before h = ground (arith, h)
left_hit opts end now n (some c) o before h =
    let more = rw (still_live end now c o before) at h in
    rw (still_live end now c o before) (ground (arith, more))

live-some : (now : ℕ) (s : Option Counter) (c : Counter) → live now s ≡ some c → s ≡ some c
live-some now none c e = cc
live-some now (some d) c e = ground (arith, e)

module _ (opts : RateLimitOptions) (i : Identity) where
  abbrev state : Counters → Option Counter
  state counters = counters opts.key_prefix i

  abbrev hit_count : ℕ → Option Counter → Counter
  hit_count now c = incremented opts.window_sec now (live now c)

  -- What a request does to the counter of the identity: its own, or another's.
  admitted_own :
      (h : Hit) (hs : List Hit) (counters : Counters)
      → same_identity i h.identity ≡ true
      → (rest : Counters) × (state rest ≡ some (hit_count h.now (state counters)))
        × (admitted opts i (h ∷ hs) counters
            ≡ passes opts (hit_count h.now (state counters)) + admitted opts i hs rest)
  unfolding admitted rate_limit incr_with_expire
  admitted_own h hs counters same =
      let e = same_identity_eq i h.identity same in
      let c = hit_count h.now (state counters) in
      (
        put opts.key_prefix i c counters,
        rw (==_refl opts.key_prefix, same_identity_refl i) refl,
        rw (sym e, same_identity_refl i)
            (elim (Bool-cases (ltb opts.limit c.count)) [ inl x ↦ rw x refl | inr x ↦ rw x refl ]),
      )

  admitted_other :
      (h : Hit) (hs : List Hit) (counters : Counters)
      → same_identity i h.identity ≡ false
      → (rest : Counters) × (state rest ≡ state counters)
        × (admitted opts i (h ∷ hs) counters ≡ admitted opts i hs rest)
  unfolding admitted rate_limit incr_with_expire
  admitted_other h hs counters other =
      let c =
        incremented opts.window_sec h.now (live h.now (counters opts.key_prefix h.identity)) in
      (
        put opts.key_prefix h.identity c counters,
        rw (==_refl opts.key_prefix, other) refl,
        elim (Bool-cases (ltb opts.limit c.count)) [
          | inl x ↦ rw (other, x) (omega arith)
          | inr x ↦ rw (other, x) (omega arith)
        ],
      )

  -- Once a counter outlasts the window, only what it has left gets through.
  admitted-left :
      (start : ℕ) (hs : List Hit) (counters : Counters)
      → All (IsWithin opts start) hs
      → Outlasts (start + opts.window_sec) (state counters)
      → admitted opts i hs counters ≤ left opts (state counters)
  unfolding admitted
  admitted-left start [] counters w o = omega arith
  admitted-left start (h ∷ hs) counters w o = elim (Bool-cases (same_identity i h.identity)) [
    | inr other ↦
        let (rest, same, e) = admitted_other h hs counters other in
        rw e (
          subst (λ (c : Option Counter). admitted opts i hs rest ≤ left opts c) same
            (admitted-left start hs rest w.1 (rw same o)))
    | inl own ↦
        let (rest, next, e) = admitted_own h hs counters own in
        let keeps : Outlasts (start + opts.window_sec) (some (hit_count h.now (state counters))) =
          hit-Outlasts opts.window_sec (start + opts.window_sec) h.now (state counters) o (w.0).1
            (omega (arith, (w.0).0)) in
        let more : admitted opts i hs rest ≤ left opts (some (hit_count h.now (state counters))) =
          subst (λ (c : Option Counter). admitted opts i hs rest ≤ left opts c) next
            (admitted-left start hs rest w.1 (rw next keeps)) in
        rw e (
          left_hit opts (start + opts.window_sec) h.now (admitted opts i hs rest) (state counters) o
            (w.0).1 more)
  ]

  -- Whatever the counter is at first: what it has left, and then what a new one lets through.
  admitted_twice :
      (start : ℕ) (hs : List Hit) (counters : Counters)
      → All (IsWithin opts start) hs
      → admitted opts i hs counters ≤ left opts (state counters) + opts.limit
  unfolding admitted
  admitted_twice start [] counters w = omega arith
  admitted_twice start (h ∷ hs) counters w = elim (Bool-cases (same_identity i h.identity)) [
    | inr other ↦
        let (rest, same, e) = admitted_other h hs counters other in
        rw e (
          subst (λ (c : Option Counter). admitted opts i hs rest ≤ left opts c + opts.limit) same
            (admitted_twice start hs rest w.1))
    | inl own ↦
        let (rest, next, e) = admitted_own h hs counters own in
        elim (Option-cases (live h.now (state counters))) [
          | inl dead ↦
              let fresh = rw dead at next in
              let more =
                subst (λ (c : Option Counter). admitted opts i hs rest ≤ left opts c) fresh
                  (admitted-left start hs rest w.1 (rw fresh (omega (arith, (w.0).0)))) in
              rw (e, dead) (ground (arith, more))
          | inr (c, alive) ↦
              let counted = rw alive at next in
              let more =
                subst (λ (x : Option Counter). admitted opts i hs rest ≤ left opts x + opts.limit)
                  counted (admitted_twice start hs rest w.1) in
              rw (e, alive, live-some h.now (state counters) c alive) (ground (arith, more))
        ]
  ]

left-le : (opts : RateLimitOptions) (c : Option Counter) → left opts c ≤ opts.limit
left-le opts none = omega arith
left-le opts (some c) = omega arith

-- Of the requests that fall into the time of one window, in any order and with whoever else's between
-- them, while Redis answers: a limiter lets through at most its limit of any identity if Redis has no
-- counter at first, and at most twice its limit whatever the counters are at first.
pub admitted_bound :
    (opts : RateLimitOptions) (i : Identity) (start : ℕ) (hs : List Hit) (counters : Counters)
    → All (IsWithin opts start) hs
    → (admitted opts i hs (λ p j. none) ≤ opts.limit)
      × (admitted opts i hs counters ≤ 2 * opts.limit)
admitted_bound opts i start hs counters w = (
  admitted-left opts i start hs (λ p j. none) w tt,
  omega
      (arith, admitted_twice opts i start hs counters w, left-le opts (counters opts.key_prefix i)),
)
