-- ===== src/ServiceWorker/Proper.antt =====
-- That what is put into a cache belongs there.
use transhub.Prelude.{
  ℕ, ◌≡◌, refl, inl, inr, Bool, true, false, not, ◌&&◌, ◌||◌, Option, none, some, List, ◌==◌, All,
  All-find_many, Bool-cases, Option-cases,
}
use transhub.ServiceWorker.{
  chars, same_text, is_ticket_detail, is_static, is_tickets, Url, Request, Response, CacheName,
  static_cache, page_ticket_list, page_ticket_detail, api_tickets, other_cache, same_cache,
  same_url, Entry, caches_match, cache_put, put_if_ok, Network, cache_first, network_first,
  stale_while_revalidate, refreshed, on_fetch,
}

-- What each cache may have.
unfoldable pub may_have : ℕ → CacheName → Url → Bool
unfolding is_static is_ticket_detail
may_have own static_cache u = u.origin == own && (is_static u.path || same_text u.path (chars "/"))
may_have own page_ticket_list u = u.origin == own && is_tickets u.path
may_have own page_ticket_detail u = u.origin == own && is_ticket_detail u.path
may_have own api_tickets u = not (u.origin == own) && (is_tickets u.path || is_ticket_detail u.path)
may_have own (other_cache n) u = false

pub record IsProper (own : ℕ) (e : Entry) : Type 0 where
  pub ok : e.response.is_ok ≡ true
  pub allowed : may_have own e.cache e.url ≡ true

module _ (own : ℕ) where
  put_if_ok-IsProper :
      (name : CacheName) (r : Request) (response : Response) (store : List Entry)
      → may_have own name r.url ≡ true
      → All (IsProper own) store
      → All (IsProper own) (put_if_ok name r response store)
  unfolding put_if_ok cache_put
  put_if_ok-IsProper name r response store allowed a = elim (Bool-cases response.is_ok) [
    | inr e ↦ simp e a
    | inl e ↦ simp e (
      record { ok = e; allowed = allowed },
      All-find_many (IsProper own) (λ x. not (same_cache x.cache name && same_url x.url r.url))
          store a,
    )
  ]

  pub refreshed-IsProper :
      (name : CacheName) (r : Request) (o : Option Response) (store : List Entry)
      → may_have own name r.url ≡ true
      → All (IsProper own) store
      → All (IsProper own) (refreshed name r o store)
  unfolding refreshed
  refreshed-IsProper name r none store allowed a = a
  refreshed-IsProper name r (some response) store allowed a =
      put_if_ok-IsProper name r response store allowed a

  module _ (fetch : Network) (name : CacheName) (r : Request) (store : List Entry)
      (allowed : may_have own name r.url ≡ true) (a : All (IsProper own) store) where
    cache_first-IsProper : All (IsProper own) (cache_first fetch name r store).1
    unfolding cache_first
    cache_first-IsProper = elim (Option-cases (caches_match r store)) [
      | inr (c, e) ↦ rw (cache_first, e) a
      | inl e ↦ elim (Option-cases (fetch r)) [
        | inl n ↦ rw (cache_first, e, n) a
        | inr (x, n) ↦ rw (cache_first, e, n) (put_if_ok-IsProper name r x store allowed a)
      ]
    ]

    network_first-IsProper : All (IsProper own) (network_first fetch name r store).1
    unfolding network_first
    network_first-IsProper = elim (Option-cases (fetch r)) [
      | inr (x, n) ↦ rw (network_first, n) (put_if_ok-IsProper name r x store allowed a)
      | inl n ↦ elim (Option-cases (caches_match r store)) [
        | inr (c, e) ↦ rw (network_first, n, e) a
        | inl e ↦ rw (network_first, n, e) a
      ]
    ]

    stale_while_revalidate-IsProper :
        All (IsProper own) (stale_while_revalidate fetch name r store).1
    unfolding stale_while_revalidate
    stale_while_revalidate-IsProper = refreshed-IsProper name r (fetch r) store allowed a

  pub on_fetch-IsProper :
      (fetch : Network) (r : Request) (store : List Entry)
      → All (IsProper own) store
      → All (IsProper own) (on_fetch own fetch r store).1
  unfolding on_fetch may_have
  on_fetch-IsProper fetch r store a = elim (Bool-cases r.is_get) [
    | inr g ↦ simp g a
    | inl g ↦ elim (Bool-cases (r.url.origin == own)) [
      | inr o ↦ elim (Bool-cases (is_tickets r.url.path)) [
        | inl t ↦
            simp (g, o, t)
              (stale_while_revalidate-IsProper fetch api_tickets r store (rw (o, t) refl) a)
        | inr t ↦ elim (Bool-cases (is_ticket_detail r.url.path)) [
          | inl d ↦
              simp (g, o, t, d)
                (cache_first-IsProper fetch api_tickets r store (rw (o, t, d) refl) a)
          | inr d ↦ simp (g, o, t, d) a
        ]
      ]
      | inl o ↦ elim (Bool-cases (is_static r.url.path)) [
        | inl s ↦
            simp (g, o, s) (cache_first-IsProper fetch static_cache r store (rw (o, s) refl) a)
        | inr s ↦ elim (Bool-cases r.is_navigation) [
          | inr n ↦ simp (g, o, s, n) a
          | inl n ↦ elim (Bool-cases (is_tickets r.url.path)) [
            | inl t ↦
                simp (g, o, s, n, t)
                  (network_first-IsProper fetch page_ticket_list r store (rw (o, t) refl) a)
            | inr t ↦ elim (Bool-cases (is_ticket_detail r.url.path)) [
              | inl d ↦
                  simp (g, o, s, n, t, d)
                    (stale_while_revalidate-IsProper fetch page_ticket_detail r store
                      (rw (o, d) refl) a)
              | inr d ↦ simp (g, o, s, n, t, d) a
            ]
          ]
        ]
      ]
    ]
  ]
