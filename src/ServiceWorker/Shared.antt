-- ===== src/ServiceWorker/Shared.antt =====
-- A ticket of the API stays in the cache, for every user of the device.
use transhub.Prelude.{
  find_first-head, ℕ, ◌≡◌, refl, sym, ap, ◌∙◌, subst, true, false, not, ◌&&◌, none, some, List, [],
  ◌∷◌, ◌==◌, if◌then◌else◌, find_many, find_first-head, ==_refl,
}
use transhub.ServiceWorker.{
  same_text, is_ticket_detail, is_tickets, Url, Request, Response, CacheName, api_tickets,
  same_cache, same_url, Entry, caches_match, cache_put, put_if_ok, Answer, answers, Network,
  cache_first, on_fetch,
}

same_text_refl : (a : List ℕ) → same_text a a ≡ true
same_text_refl [] = refl
same_text_refl (x ∷ xs) = rw (==_refl x) (same_text_refl xs)

same_url_refl : (u : Url) → same_url u u ≡ true
same_url_refl u = rw (==_refl u.origin, same_text_refl u.path, ==_refl u.query) refl

-- The route of a ticket of the API.
on_ticket :
    (own : ℕ) (fetch : Network) (r : Request) (store : List Entry)
    → r.is_get ≡ true
    → (r.url.origin == own) ≡ false
    → is_tickets r.url.path ≡ false
    → is_ticket_detail r.url.path ≡ true
    → on_fetch own fetch r store ≡ cache_first fetch api_tickets r store
unfolding on_fetch
on_ticket own fetch r store g o t d = simp (g, o, t, d) refl

stored_ok :
    (fetch : Network) (name : CacheName) (r : Request) (response : Response) (store : List Entry)
    → caches_match r store ≡ none
    → fetch r ≡ some response
    → response.is_ok ≡ true
    → (cache_first fetch name r store).1 ≡ cache_put name r response store
unfolding cache_first put_if_ok
stored_ok fetch name r response store empty_at_first answered ok =
    rw (cache_first, empty_at_first, answered)
      (subst
        (λ b.
          (if b then cache_put name r response store else store) ≡ cache_put name r response store)
        (sym ok) refl)

-- What a cache that has just stored a response answers at its address.
match_put :
    (name : CacheName) (r r2 : Request) (response : Response) (store : List Entry)
    → r2.url ≡ r.url
    → caches_match r2 (cache_put name r response store) ≡ some response
unfolding caches_match cache_put
match_put name r r2 response store same =
    let here = subst (λ (u : Url). same_url r.url u ≡ true) (sym same) (same_url_refl r.url) in
    let entry : Entry = record { cache = name; url = r.url; response = response } in
    let rest =
      find_many (λ (e : Entry). not (same_cache e.cache name && same_url e.url r.url)) store in
    rw
      (
        caches_match,
        cache_put,
        find_first-head (λ (e : Entry). same_url e.url r2.url) entry rest here,
      )
      refl

-- A ticket of the API that was fetched once is answered from the cache from then on, with any network,
-- and to any user of the device: no request for the same address reaches the API again.
ticket_stays :
    (own : ℕ) (fetch fetch2 : Network) (r r2 : Request) (response : Response) (store : List Entry)
    → r.is_get ≡ true
    → r2.is_get ≡ true
    → (r.url.origin == own) ≡ false
    → is_ticket_detail r.url.path ≡ true
    → is_tickets r.url.path ≡ false
    → r2.url ≡ r.url
    → caches_match r store ≡ none
    → fetch r ≡ some response
    → response.is_ok ≡ true
    → (on_fetch own fetch2 r2 (on_fetch own fetch r store).1).0 ≡ answers response
unfolding cache_first
ticket_stays own fetch fetch2 r r2 response store g g2 o d t same empty_at_first answered ok =
    let first : (on_fetch own fetch r store).1 ≡ cache_put api_tickets r response store =
      ap (λ (x : Answer × List Entry). x.1) (on_ticket own fetch r store g o t d)
      ∙ stored_ok fetch api_tickets r response store empty_at_first answered ok in
    let hit = match_put api_tickets r r2 response store same in
    let o2 = subst (λ (u : Url). (u.origin == own) ≡ false) (sym same) o in
    let t2 = subst (λ (u : Url). is_tickets u.path ≡ false) (sym same) t in
    let d2 = subst (λ (u : Url). is_ticket_detail u.path ≡ true) (sym same) d in
    rw first (
      rw
        (
          on_ticket own fetch2 r2 (cache_put api_tickets r response store) g2 o2 t2 d2,
          cache_first,
          hit,
        )
        refl)
