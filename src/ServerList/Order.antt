-- ===== src/ServerList/Order.antt =====
-- The order in which replies come does not matter.
use transhub.Prelude.{
  ℕ, ◌≡◌, refl, sym, ◌∙◌, subst, inl, inr, false, List, [], ◌∷◌, ◌==◌, ==_refl, In, IsKeyed, Absent,
  arith,
}
use transhub.ServerList.{Reply, replied, refused, Hook, shown, settle}

abbrev pub request : ℕ × Reply → ℕ
request x = x.0

-- The replies to the requests that are in flight, in the order in which they come.
unfoldable pub settle_all : List (ℕ × Reply) → Hook → Hook
unfolding settle
settle_all [] s = s
settle_all (x ∷ rs) s = settle_all rs (settle x.0 x.1 s)

==_flip : (a b : ℕ) → (a == b) ≡ false → (b == a) ≡ false
==_flip a b h = ground (arith, h)

settle_all-stale :
    (rs : List (ℕ × Reply)) (s : Hook) → Absent request s.req_id rs → settle_all rs s ≡ s
unfolding settle_all settle
settle_all-stale [] s a = refl
settle_all-stale (x ∷ rs) s a = rw a.0 (settle_all-stale rs s a.1)

shown-req_id : (r : Reply) (s : Hook) → (shown r s).req_id ≡ s.req_id
unfolding shown
shown-req_id (replied items pagination) s = refl
shown-req_id (refused message) s = refl

Absent-of_member :
    (x y : ℕ × Reply) (rs : List (ℕ × Reply))
    → Absent request x.0 rs
    → In y rs
    → (y.0 == x.0) ≡ false
Absent-of_member x y [] a m = elim m [ ]
Absent-of_member x y (z ∷ rs) a (inl e) = subst (λ w. (request w == x.0) ≡ false) (sym e) a.0
Absent-of_member x y (z ∷ rs) a (inr m) = Absent-of_member x y rs a.1 m

settle_all-head :
    (rs : List (ℕ × Reply)) (r : Reply) (s : Hook)
    → Absent request s.req_id rs
    → settle_all ((s.req_id, r) ∷ rs) s ≡ shown r s
unfolding settle_all settle
settle_all-head rs r s a =
    rw (==_refl s.req_id) (
      settle_all-stale rs (shown r s) (subst (λ j. Absent request j rs) (sym (shown-req_id r s)) a))

-- All that shows in the end is the reply to the latest request.
settle_all_lem :
    (rs : List (ℕ × Reply)) (r : Reply) (s : Hook)
    → IsKeyed request rs
    → In (s.req_id, r) rs
    → settle_all rs s ≡ shown r s
unfolding settle_all settle
settle_all_lem [] r s k m = elim m [ ]
settle_all_lem (x ∷ rs) r s k (inl e) =
    subst (λ (y : ℕ × Reply). Absent request y.0 rs → settle_all (y ∷ rs) s ≡ shown r s) e
      (settle_all-head rs r s) k.0
settle_all_lem (x ∷ rs) r s k (inr m) =
    rw (==_flip s.req_id x.0 (Absent-of_member x (s.req_id, r) rs k.0 m))
      (settle_all_lem rs r s k.1 m)

-- Two orders of replies to requests of different numbers, with the same reply to the latest request
-- among them: the hook ends in the same state, the one that this reply gives alone.
pub settle_all_comm :
    (rs rs' : List (ℕ × Reply)) (r : Reply) (s : Hook)
    → IsKeyed request rs
    → IsKeyed request rs'
    → In (s.req_id, r) rs
    → In (s.req_id, r) rs'
    → (settle_all rs s ≡ settle_all rs' s) × (settle_all rs s ≡ shown r s)
settle_all_comm rs rs' r s k k' m m' =
    let e = settle_all_lem rs r s k m in (e ∙ sym (settle_all_lem rs' r s k' m'), e)
