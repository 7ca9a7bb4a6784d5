-- ===== src/ServiceWorker/Stored.antt =====
-- What the caches can come to have.
use transhub.Prelude.{
  ℕ, ◌≡◌, refl, ap, inl, inr, subst, Bool, true, false, not, ◌&&◌, ◌||◌, none, List, [], ◌∷◌, ◌==◌,
  All, All-In, All-find_many, arith, Bool-cases, Option-cases, ==_iff, ==_refl, find_first,
  find_first-some,
}
use transhub.ServiceWorker.{
  chars, same_text, is_ticket_detail, is_static, is_tickets, Url, Request, CacheName, static_cache,
  page_ticket_list, page_ticket_detail, api_tickets, other_cache, same_url, is_known, Entry,
  caches_match, Network, refreshed, on_fetch, precache, on_install, on_activate,
}
use transhub.ServiceWorker.Proper.{may_have, IsProper, refreshed-IsProper, on_fetch-IsProper}

-- What happens to a worker: a fetch with the network as it is then, or an activation.
pub data Event : Type 0 where
  fetched : Network → Request → Event
  activated : Event

unfoldable pub after : ℕ → List Event → List Entry → List Entry
unfolding on_fetch on_activate
after own [] store = store
after own (fetched fetch r ∷ es) store = after own es (on_fetch own fetch r store).1
after own (activated ∷ es) store = after own es (on_activate store)

after-IsProper :
    (own : ℕ) (es : List Event) (store : List Entry)
    → All (IsProper own) store
    → All (IsProper own) (after own es store)
unfolding after on_activate
after-IsProper own [] store a = a
after-IsProper own (fetched fetch r ∷ es) store a =
    after-IsProper own es (on_fetch own fetch r store).1 (on_fetch-IsProper own fetch r store a)
after-IsProper own (activated ∷ es) store a =
    after-IsProper own es (on_activate store)
      (All-find_many (IsProper own) (λ e. is_known e.cache) store a)

-- A request of the installation.
abbrev shell : ℕ → List ℕ → Request
shell own path = record {
  url = record { origin = own; path = path; query = 0 };
  is_get = true;
  is_navigation = false;
  user = 0;
}

on_install-IsProper :
    (own : ℕ) (fetch : Network) → All (IsProper own) (on_install own fetch precache [])
unfolding on_install may_have is_static
on_install-IsProper own fetch =
    let root = shell own (chars "/") in
    let manifest = shell own (chars "/manifest.json") in
    refreshed-IsProper own static_cache manifest (fetch manifest)
      (refreshed static_cache root (fetch root) []) (rw (==_refl own) refl)
      (refreshed-IsProper own static_cache root (fetch root) [] (rw (==_refl own) refl) tt)

-- What some cache may have.
unfoldable pub is_cacheable : ℕ → Url → Bool
unfolding is_static is_ticket_detail
is_cacheable own u =
    is_tickets u.path
    || is_ticket_detail u.path
    || (u.origin == own && (is_static u.path || same_text u.path (chars "/")))

module _ (t d o s : Bool) where
  from_static : (o && s) ≡ true → (t || d || (o && s)) ≡ true
  from_static h = ground (arith, h)

  from_list : (o && t) ≡ true → (t || d || (o && s)) ≡ true
  from_list h = ground (arith, h)

  from_detail : (o && d) ≡ true → (t || d || (o && s)) ≡ true
  from_detail h = ground (arith, h)

  from_api : (not o && (t || d)) ≡ true → (t || d || (o && s)) ≡ true
  from_api h = ground (arith, h)

may_have_cacheable :
    (own : ℕ) (c : CacheName) (u : Url) → may_have own c u ≡ true → is_cacheable own u ≡ true
unfolding may_have is_cacheable
may_have_cacheable own static_cache u h =
    from_static (is_tickets u.path) (is_ticket_detail u.path) (u.origin == own)
      (is_static u.path || same_text u.path (chars "/")) h
may_have_cacheable own page_ticket_list u h =
    from_list (is_tickets u.path) (is_ticket_detail u.path) (u.origin == own)
      (is_static u.path || same_text u.path (chars "/")) h
may_have_cacheable own page_ticket_detail u h =
    from_detail (is_tickets u.path) (is_ticket_detail u.path) (u.origin == own)
      (is_static u.path || same_text u.path (chars "/")) h
may_have_cacheable own api_tickets u h =
    from_api (is_tickets u.path) (is_ticket_detail u.path) (u.origin == own)
      (is_static u.path || same_text u.path (chars "/")) h
may_have_cacheable own (other_cache n) u h = cc

same_text_eq : (a b : List ℕ) → same_text a b ≡ true → a ≡ b
same_text_eq [] [] h = refl
same_text_eq (x ∷ xs) (y ∷ ys) h = elim (Bool-cases (x == y)) [
  | inl e ↦ rw ((==_iff x y).0 e) (ap (◌∷◌ y) (same_text_eq xs ys (rw e at h)))
  | inr e ↦ cc (rw e at h)
]
same_text_eq [] (y ∷ ys) h = cc
same_text_eq (x ∷ xs) [] h = cc

both : (a b c : Bool) → (a && b && c) ≡ true → (a ≡ true) × (b ≡ true)
both a b c h = ground (arith, h)

same_url_cacheable :
    (own : ℕ) (u v : Url)
    → same_url u v ≡ true
    → is_cacheable own u ≡ true
    → is_cacheable own v ≡ true
unfolding is_cacheable
same_url_cacheable own u v same h =
    let (o, p) = both (u.origin == v.origin) (same_text u.path v.path) (u.query == v.query) same in
    let at = λ (o : ℕ) (p : List ℕ).
      is_cacheable own (record { origin = o; path = p; query = 0 }) ≡ true in
    subst (λ o. at o v.path) ((==_iff u.origin v.origin).0 o)
      (subst (λ p. at u.origin p) (same_text_eq u.path v.path p) h)

-- From the installation on, after any fetches and activations, with any network at each: a request
-- whose address is no ticket's and neither a static file nor the start page of the site is answered by
-- no cache, so nothing of the inventory, of bookings or of payments is ever stale; and what the caches
-- have are responses that were ok, each in the cache for its address.
pub never_stored :
    (own : ℕ) (fetch : Network) (es : List Event) (r : Request)
    → is_cacheable own r.url ≡ false
    → (caches_match r (after own es (on_install own fetch precache [])) ≡ none)
      × All (IsProper own) (after own es (on_install own fetch precache []))
unfolding caches_match
never_stored own fetch es r other =
    let store = after own es (on_install own fetch precache []) in
    let proper =
      after-IsProper own es (on_install own fetch precache []) (on_install-IsProper own fetch) in
    elim (Option-cases (find_first (λ (e : Entry). same_url e.url r.url) store)) [
      | inl e ↦ (rw (caches_match, e) refl, proper)
      | inr (x, e) ↦
          let (m, same) = find_first-some (λ (y : Entry). same_url y.url r.url) store x e in
          let fits =
            may_have_cacheable own x.cache x.url (All-In (IsProper own) store x proper m).allowed in
          cc (other, same_url_cacheable own x.url r.url same fits)
    ]
