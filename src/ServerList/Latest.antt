-- ===== src/ServerList/Latest.antt =====
-- What a list shows is the reply to the latest request, which asks for what the page says.
use transhub.Prelude.{
  ℕ, ◌+◌, ◌≤◌, ◌≡◌, refl, sym, ap, ◌∙◌, subst, ◌⊎◌, inl, inr, Bool, true, false, not, ◌||◌, Option,
  none, some, List, [], ◌∷◌, ◌++◌, ◌==◌, ==_iff, ==_refl, if◌then◌else◌, In, arith, Bool-cases,
}
use transhub.ServerList.{
  Filters, Requests, Reply, replied, refused, Hook, query_of, fetch, same_term, rendered, merged,
  shown, settle, Event, set_page, set_filter, reset_filters, set_search_input, debounced, refetch,
  settled, step, mounted,
}

-- The hook with what it has sent and what has come back.
pub record Log : Type 0 where
  pub hook : Hook
  pub sent : Requests
  pub replies : List (ℕ × Reply)

abbrev pub replies_of : Event → List (ℕ × Reply)
replies_of (settled i r) = (i, r) ∷ []
replies_of e = []

abbrev pub has_reply : ℕ → List (ℕ × Reply) → Bool
has_reply i [] = false
has_reply i ((j, r) ∷ rs) = (j == i) || has_reply i rs

-- A promise settles once.
abbrev pub happens : Event → Log → Bool
happens (settled i r) l = not (has_reply i l.replies)
happens e l = true

abbrev pub advance : ℕ → Event → Log → Log
advance limit e l =
    let r = step limit e l.hook in
    if happens e l
    then record { hook = r.0; sent = r.1 ++ l.sent; replies = replies_of e ++ l.replies }
    else l

unfoldable pub run : ℕ → List Event → Log → Log
run limit [] l = l
run limit (e ∷ es) l = run limit es (advance limit e l)

-- The page shows a reply.
abbrev pub Shows : Reply → Hook → Type 0
Shows (replied items pagination) s =
    (s.items ≡ items) × (s.pagination ≡ pagination) × (s.error ≡ none)
Shows (refused message) s = (s.items ≡ []) × (s.pagination ≡ none) × (s.error ≡ some message)

-- No request has a later number than the hook's.
abbrev pub NoneAfter : ℕ → Requests → Type 0
NoneAfter i [] = Unit {0}
NoneAfter i (q ∷ qs) = (q.0 ≤ i) × NoneAfter i qs

-- The latest request asks for what the page says, and while nothing is loading the page shows a reply
-- to that request.
pub record IsCurrent (limit : ℕ) (l : Log) : Type 0 where
  pub latest : In (l.hook.req_id, query_of limit l.hook) l.sent
  pub newest : NoneAfter l.hook.req_id l.sent
  pub answered :
      ((l.hook.loading ≡ true) × (l.hook.error ≡ none))
      ⊎ ((r : Reply) × In (l.hook.req_id, r) l.replies × Shows r l.hook)

NoneAfter-le : (i j : ℕ) (qs : Requests) → i ≤ j → NoneAfter i qs → NoneAfter j qs
NoneAfter-le i j [] h n = tt
NoneAfter-le i j (q ∷ qs) h n = (omega (arith, n.0), NoneAfter-le i j qs h n.1)

same_term-eq : (a b : Option ℕ) → same_term a b ≡ true → a ≡ b
same_term-eq none none h = refl
same_term-eq none (some b) h = cc
same_term-eq (some a) none h = cc
same_term-eq (some a) (some b) h = ap some ((==_iff a b).0 h)

abbrev logged : Log → Hook × Requests → Log
logged l r = record l { hook = r.0; sent = r.1 ++ l.sent }

fetch-IsCurrent :
    (limit : ℕ) (l : Log) (s : Hook)
    → s.req_id ≡ l.hook.req_id
    → NoneAfter l.hook.req_id l.sent
    → IsCurrent limit (logged l (fetch limit s))
unfolding fetch
fetch-IsCurrent limit l s e n = record {
  latest = inl refl;
  newest = (omega arith, NoneAfter-le l.hook.req_id (s.req_id + 1) l.sent (omega arith) n);
  answered = inl (refl, refl);
}

-- The hook with other inputs; what it shows and its requests are as before.
abbrev with_inputs : ℕ → Filters → Option ℕ → Option ℕ → ℕ → Bool → Hook → Hook
with_inputs page filters search_input search tick armed s = record s {
  page = page;
  filters = filters;
  search_input = search_input;
  search = search;
  tick = tick;
  armed = armed;
}

Shows-with_inputs :
    (page : ℕ) (filters : Filters) (a b : Option ℕ) (tick : ℕ) (armed : Bool) (s : Hook) (r : Reply)
    → Shows r s
    → Shows r (with_inputs page filters a b tick armed s)
Shows-with_inputs page filters a b tick armed s (replied items pagination) w = w
Shows-with_inputs page filters a b tick armed s (refused message) w = w

-- If the page asks for the same, what was current stays so.
kept-IsCurrent :
    (limit page : ℕ) (filters : Filters) (a b : Option ℕ) (tick : ℕ) (armed : Bool) (l : Log)
    → page ≡ l.hook.page
    → filters ≡ l.hook.filters
    → b ≡ l.hook.search
    → IsCurrent limit l
    → IsCurrent limit (record l { hook = with_inputs page filters a b tick armed l.hook })
kept-IsCurrent limit page filters a b tick armed l p f s c = record {
  latest = rw (p, f, s) c.latest;
  newest = c.newest;
  answered = elim c.answered [
    | inl e ↦ inl e
    | inr (r, m, w) ↦ inr (r, m, Shows-with_inputs page filters a b tick armed l.hook r w)
  ];
}

true_ne_false : true ≡ false → ⊥
true_ne_false h = cc

-- What a change that fetches nothing leaves alone.
unchanged :
    (new_filters term page tick : Bool)
    → (new_filters || not term || not page || not tick) ≡ false
    → (new_filters ≡ false) × (term ≡ true) × (page ≡ true)
unchanged new_filters term page tick h = ground (arith, h)

rendered-IsCurrent :
    (limit page : ℕ) (filters : Filters) (a b : Option ℕ) (tick : ℕ) (armed new_filters : Bool)
    (l : Log)
    → (new_filters ≡ true) ⊎ (filters ≡ l.hook.filters)
    → IsCurrent limit l
    → IsCurrent limit (
        logged l
          (rendered limit new_filters l.hook (with_inputs page filters a b tick armed l.hook)))
unfolding rendered
rendered-IsCurrent limit page filters a b tick armed new_filters l f c =
    let changed =
      new_filters
      || not (same_term b l.hook.search)
      || not (page == l.hook.page)
      || not (tick == l.hook.tick) in
    let timer = if same_term a l.hook.search_input then armed else true in
    elim (Bool-cases changed) [
      | inl y ↦
          rw y
            (fetch-IsCurrent limit l (with_inputs page filters a b tick timer l.hook) refl c.newest)
      | inr n ↦
          let (old, term, same) =
            unchanged new_filters (same_term b l.hook.search) (page == l.hook.page)
              (tick == l.hook.tick) n in
          rw n (
            kept-IsCurrent limit page filters a b tick timer l ((==_iff page l.hook.page).0 same)
              (elim f [ inl y ↦ absurd (true_ne_false (sym y ∙ old)) | inr e ↦ e ])
              (same_term-eq b l.hook.search term) c)
    ]

In-has_reply : (i : ℕ) (r : Reply) (rs : List (ℕ × Reply)) → In (i, r) rs → has_reply i rs ≡ true
In-has_reply i r [] m = elim m [ ]
In-has_reply i r ((j, r') ∷ rs) (inl e) = rw (sym (ap (λ (x : ℕ × Reply). x.0) e), ==_refl i) refl
In-has_reply i r ((j, r') ∷ rs) (inr m) = ground (arith, In-has_reply i r rs m)

-- The latest request has no reply yet, so nothing has failed since it was sent.
waiting :
    (limit : ℕ) (l : Log)
    → IsCurrent limit l
    → has_reply l.hook.req_id l.replies ≡ false
    → l.hook.error ≡ none
waiting limit l c h = elim c.answered [
  | inl (loading, fine) ↦ fine
  | inr (r, m, w) ↦ absurd (true_ne_false (sym (In-has_reply l.hook.req_id r l.replies m) ∙ h))
]

-- The page after the reply to the latest request; what it asks for is as before.
shown-IsCurrent :
    (limit i : ℕ) (r : Reply) (l : Log)
    → l.hook.req_id ≡ i
    → l.hook.error ≡ none
    → IsCurrent limit l
    → IsCurrent limit (record l { hook = shown r l.hook; replies = (i, r) ∷ l.replies })
unfolding shown
shown-IsCurrent limit i (replied items pagination) l same fine c = record {
  latest = c.latest;
  newest = c.newest;
  answered =
      let r = replied items pagination in inr (r, inl (ap (λ j. (j, r)) same), (refl, refl, fine));
}
shown-IsCurrent limit i (refused message) l same fine c = record {
  latest = c.latest;
  newest = c.newest;
  answered = let r = refused message in inr (r, inl (ap (λ j. (j, r)) same), (refl, refl, refl));
}

settled-IsCurrent :
    (limit i : ℕ) (r : Reply) (l : Log)
    → has_reply i l.replies ≡ false
    → IsCurrent limit l
    → IsCurrent limit (record l { hook = settle i r l.hook; replies = (i, r) ∷ l.replies })
unfolding settle
settled-IsCurrent limit i r l once c = elim (Bool-cases (i == l.hook.req_id)) [
  | inl same ↦
      let e = (==_iff i l.hook.req_id).0 same in
      rw same (
        shown-IsCurrent limit i r l (sym e)
          (waiting limit l c (subst (λ j. has_reply j l.replies ≡ false) e once)) c)
  | inr stale ↦ rw stale (record {
    latest = c.latest;
    newest = c.newest;
    answered = elim c.answered [ inl w ↦ inl w | inr (r', m, w) ↦ inr (r', inr m, w) ];
  })
]

debounced-IsCurrent :
    (limit : ℕ) (l : Log) (armed : Bool)
    → IsCurrent limit l
    → IsCurrent limit (
        logged l (
          if armed
          then rendered limit false l.hook
              (record (l.hook) { search = l.hook.search_input; page = 1; armed = false })
          else (l.hook, [])))
debounced-IsCurrent limit l true c =
    let s = l.hook in
    rendered-IsCurrent limit 1 s.filters s.search_input s.search_input s.tick false false l
      (inr refl) c
debounced-IsCurrent limit l false c = c

advance-IsCurrent :
    (limit : ℕ) (e : Event) (l : Log) → IsCurrent limit l → IsCurrent limit (advance limit e l)
unfolding step
advance-IsCurrent limit (set_page p) l c =
    let s = l.hook in
    rendered-IsCurrent limit p s.filters s.search_input s.search s.tick s.armed false l (inr refl) c
advance-IsCurrent limit (set_filter patch) l c =
    let s = l.hook in
    rendered-IsCurrent limit 1 (merged s.filters patch) s.search_input s.search s.tick s.armed true
      l (inl refl) c
advance-IsCurrent limit (reset_filters next) l c =
    rendered-IsCurrent limit 1 next none none l.hook.tick l.hook.armed true l (inl refl) c
advance-IsCurrent limit (set_search_input v) l c =
    let s = l.hook in
    rendered-IsCurrent limit s.page s.filters v s.search s.tick s.armed false l (inr refl) c
advance-IsCurrent limit debounced l c = debounced-IsCurrent limit l l.hook.armed c
advance-IsCurrent limit refetch l c =
    let s = l.hook in
    rendered-IsCurrent limit s.page s.filters s.search_input s.search (s.tick + 1) s.armed false l
      (inr refl) c
advance-IsCurrent limit (settled i r) l c = elim (Bool-cases (has_reply i l.replies)) [
  | inl again ↦ rw again c
  | inr once ↦ rw once (settled-IsCurrent limit i r l once c)
]

run_from :
    (limit : ℕ) (es : List Event) (l : Log) → IsCurrent limit l → IsCurrent limit (run limit es l)
unfolding run
run_from limit [] l c = c
run_from limit (e ∷ es) l c = run_from limit es (advance limit e l) (advance-IsCurrent limit e l c)

-- From the mount of a page on, whatever is clicked and typed and in whatever order the replies come:
-- the latest request asks for the page, the filters and the term that the hook has, and unless it is
-- loading, the list shows a reply to that request.
pub run-IsCurrent :
    (limit : ℕ) (filters : Filters) (term : Option ℕ) (es : List Event)
    → IsCurrent limit (
        run limit es (record {
          hook = (mounted limit filters term).0;
          sent = (mounted limit filters term).1;
          replies = [];
        }))
unfolding run mounted fetch
run-IsCurrent limit filters term es =
    run_from limit es _
      (record { latest = inl refl; newest = omega arith; answered = inl (refl, refl) })
