-- ===== src/ServiceWorker.antt =====
-- The service worker (frontend/public/sw.js): what it stores and what it answers. A page or an answer
-- is a number; a rejected fetch is `none`; what runs in the background has settled at the end of an
-- event.
pub mod Proper
pub mod Stored
pub mod Shared
mod Tests
use transhub.Prelude.{
  ℕ, zero, suc, ◌+◌, ◌-◌, ◌*◌, ◌/◌, ◌%◌, ◌<◌, ◌≤◌, ◌≡◌, ◌≢◌, ◌↔◌, refl, sym, ap, ◌∙◌, ◌⊎◌, inl, inr,
  subst, Bool, true, false, not, ◌&&◌, ◌||◌, Option, none, some, List, [], ◌∷◌, ◌++◌, ◌==◌, ltb,
  leb, if◌then◌else◌, is_some, All, length, drop, find_many, arith, Bool-cases, Option-cases,
  ==_iff, ==_refl, update_many, count_where, find_first, find_first-some,
}
use transhub.Errors.{Result, returns, throws, ◌>>=◌, throw_if, Ensures}
use Prim.Native.String.{String}
use Prim.Native.Char.{Char, code}

-- A path as the numbers of its characters.
abbrev pub chars : String → List ℕ
chars String.[] = []
chars (String.◌∷◌ first rest) = code first ∷ chars rest

abbrev pub same_text : List ℕ → List ℕ → Bool
same_text [] [] = true
same_text (x ∷ xs) (y ∷ ys) = x == y && same_text xs ys
same_text _ _ = false

abbrev pub starts_with : List ℕ → List ℕ → Bool
starts_with [] s = true
starts_with (p ∷ ps) [] = false
starts_with (p ∷ ps) (c ∷ cs) = p == c && starts_with ps cs

abbrev pub ends_with : List ℕ → List ℕ → Bool
ends_with p [] = same_text p []
ends_with p (c ∷ cs) = same_text p (c ∷ cs) || ends_with p cs

abbrev pub has_slash : List ℕ → Bool
has_slash [] = false
has_slash (c ∷ cs) = c == 47 || has_slash cs

abbrev pub any_suffix : List (List ℕ) → List ℕ → Bool
any_suffix [] s = false
any_suffix (e ∷ es) s = ends_with e s || any_suffix es s

-- TICKET_DETAIL_RE: "/tickets/" and then at least one character and no slash.
unfoldable pub is_ticket_detail : List ℕ → Bool
is_ticket_detail path =
    let rest = drop 9 path in
    starts_with (chars "/tickets/") path && not (length rest == 0) && not (has_slash rest)

-- STATIC_ASSET_RE.
abbrev pub extensions : List (List ℕ)
extensions =
    chars ".js"
    ∷ chars ".css"
    ∷ chars ".woff"
    ∷ chars ".woff2"
    ∷ chars ".ttf"
    ∷ chars ".png"
    ∷ chars ".jpg"
    ∷ chars ".jpeg"
    ∷ chars ".svg"
    ∷ chars ".gif"
    ∷ chars ".ico"
    ∷ chars ".webp"
    ∷ []

unfoldable pub is_static : List ℕ → Bool
is_static path =
    starts_with (chars "/_next/") path
    || starts_with (chars "/icons/") path
    || same_text path (chars "/manifest.json")
    || any_suffix extensions path

abbrev pub is_tickets : List ℕ → Bool
is_tickets path = same_text path (chars "/tickets")

pub record Url : Type 0 where
  pub origin : ℕ
  pub path : List ℕ
  pub query : ℕ

-- A request; `user` is whose token it carries, which no cache looks at.
pub record Request : Type 0 where
  pub url : Url
  pub is_get : Bool
  pub is_navigation : Bool
  pub user : ℕ

pub record Response : Type 0 where
  pub is_ok : Bool
  pub body : ℕ

pub data CacheName : Type 0 where
  static_cache page_ticket_list page_ticket_detail api_tickets : CacheName
  other_cache : ℕ → CacheName

abbrev pub same_cache : CacheName → CacheName → Bool
same_cache static_cache static_cache = true
same_cache page_ticket_list page_ticket_list = true
same_cache page_ticket_detail page_ticket_detail = true
same_cache api_tickets api_tickets = true
same_cache (other_cache a) (other_cache b) = a == b
same_cache _ _ = false

-- KNOWN_CACHES.
abbrev pub is_known : CacheName → Bool
is_known (other_cache n) = false
is_known _ = true

pub record Entry : Type 0 where
  pub cache : CacheName
  pub url : Url
  pub response : Response

abbrev pub same_url : Url → Url → Bool
same_url a b = a.origin == b.origin && same_text a.path b.path && a.query == b.query

-- `caches.match` with `ignoreVary`: by the address alone, which stands in one cache only.
unfoldable pub caches_match : Request → List Entry → Option Response
caches_match r store = elim (find_first (λ e. same_url e.url r.url) store) [
  | none ↦ none
  | some e ↦ some e.response
]

-- `cache.put`.
unfoldable pub cache_put : CacheName → Request → Response → List Entry → List Entry
cache_put name r response store =
    record { cache = name; url = r.url; response = response }
    ∷ find_many (λ e. not (same_cache e.cache name && same_url e.url r.url)) store

abbrev pub put_if_ok : CacheName → Request → Response → List Entry → List Entry
unfolding cache_put
put_if_ok name r response store = if response.is_ok then cache_put name r response store else store

-- What the page gets: an answer, the offline page, a 504, a network error, or what the browser itself
-- fetches because the worker does not respond.
pub data Answer : Type 0 where
  answers : Response → Answer
  offline_page offline_504 network_error passed_through : Answer

-- The network, as each event finds it.
abbrev pub Network : Type 0
Network = Request → Option Response

unfoldable pub cache_first : Network → CacheName → Request → List Entry → Answer × List Entry
unfolding caches_match put_if_ok
cache_first fetch name r store = elim (caches_match r store) [
  | some cached ↦ (answers cached, store)
  | none ↦ elim (fetch r) [
    | none ↦ (network_error, store)
    | some response ↦ (answers response, put_if_ok name r response store)
  ]
]

unfoldable pub network_first : Network → CacheName → Request → List Entry → Answer × List Entry
unfolding caches_match put_if_ok
network_first fetch name r store = elim (fetch r) [
  | some response ↦ (answers response, put_if_ok name r response store)
  | none ↦ elim (caches_match r store) [
    | some cached ↦ (answers cached, store)
    | none ↦ (network_error, store)
  ]
]

abbrev pub answer_of : Option Response → Option Response → Answer
answer_of (some cached) network = answers cached
answer_of none (some response) = answers response
answer_of none none = offline_page

abbrev pub refreshed : CacheName → Request → Option Response → List Entry → List Entry
unfolding put_if_ok
refreshed name r none store = store
refreshed name r (some response) store = put_if_ok name r response store

unfoldable pub stale_while_revalidate :
    Network → CacheName → Request → List Entry → Answer × List Entry
unfolding caches_match refreshed
stale_while_revalidate fetch name r store =
    (answer_of (caches_match r store) (fetch r), refreshed name r (fetch r) store)

unfoldable pub navigation_fallback : Network → Request → List Entry → Answer
unfolding caches_match
navigation_fallback fetch r store = elim (fetch r) [
  | some response ↦ answers response
  | none ↦ answer_of (caches_match r store) none
]

-- The last case of the listener: network, or else any cache.
abbrev pub fallback : Option Response → Option Response → Answer
fallback (some response) cached = answers response
fallback none (some cached) = answers cached
fallback none none = offline_504

-- The listener of `fetch`; `own` is the origin of the worker.
unfoldable pub on_fetch : ℕ → Network → Request → List Entry → Answer × List Entry
unfolding cache_first network_first stale_while_revalidate navigation_fallback is_ticket_detail
    is_static caches_match
on_fetch own fetch r store =
    if not r.is_get
    then (passed_through, store)
    else if not (r.url.origin == own)
    then if is_tickets r.url.path
      then stale_while_revalidate fetch api_tickets r store
      else if is_ticket_detail r.url.path
      then cache_first fetch api_tickets r store
      else (passed_through, store)
    else if is_static r.url.path
    then cache_first fetch static_cache r store
    else if r.is_navigation
    then if is_tickets r.url.path
      then network_first fetch page_ticket_list r store
      else if is_ticket_detail r.url.path
      then stale_while_revalidate fetch page_ticket_detail r store
      else (navigation_fallback fetch r store, store)
    else (fallback (fetch r) (caches_match r store), store)

-- The listener of `install`: each address of PRECACHE that the network has.
abbrev pub precache : List (List ℕ)
precache = chars "/" ∷ chars "/manifest.json" ∷ []

unfoldable pub on_install : ℕ → Network → List (List ℕ) → List Entry → List Entry
unfolding put_if_ok
on_install own fetch [] store = store
on_install own fetch (p ∷ ps) store =
    let r : Request = record {
      url = record { origin = own; path = p; query = 0 };
      is_get = true;
      is_navigation = false;
      user = 0;
    } in
    on_install own fetch ps (refreshed static_cache r (fetch r) store)

-- The listener of `activate`.
unfoldable pub on_activate : List Entry → List Entry
on_activate = find_many (λ e. is_known e.cache)
