-- ===== src/Waybills/Reads/Private.antt =====
-- What a waybill keeps to itself: from those who track it, and from the companies that do not carry it.
use transhub.Prelude.{
  ℕ, ◌≡◌, refl, ap, sym, ◌∙◌, Bool, none, some, List, [], ◌∷◌, is, length, map, find_many,
  find_first, find_many-agrees, order_by, arith,
}
use transhub.Roles.{operator}
use transhub.Pagination.{PaginationQuery, page_meta, to_skip_take, items}
use transhub.Waybills.{Waybill}
use transhub.Waybills.Reads.{
  track_waybill, WaybillListFilter, Tables, build_waybill_where, is_newer, find_all, listed,
  list_waybills,
}

-- A waybill without its owner, trip, phone numbers, declared value, quote note and payment reference.
abbrev pub redacted : Waybill → Waybill
redacted w = record w {
  id = 0;
  user_id = 0;
  trip_id = none;
  sender_phone = 0;
  recipient_phone = 0;
  declared_value = none;
  quote_note = none;
  payment_ref = none;
}

track_waybill-blind :
    (n : ℕ) (ws : List Waybill) → track_waybill n ws ≡ track_waybill n (map redacted ws)
unfolding track_waybill find_first
track_waybill-blind n [] = refl
track_waybill-blind n (w ∷ ws) = ground (arith, track_waybill-blind n ws)

abbrev pub is_assigned : ℕ → Waybill → Bool
is_assigned company w = is w.assigned_operator_id company

list_waybills-own :
    (company : ℕ) (f : WaybillListFilter) (p : PaginationQuery) (db : Tables)
    (ws ws' : List Waybill)
    → find_many (is_assigned company) ws ≡ find_many (is_assigned company) ws'
    → list_waybills f (record { role = operator; operator_id = some company }) p db ws
      ≡ list_waybills f (record { role = operator; operator_id = some company }) p db ws'
unfolding list_waybills listed find_all build_waybill_where
list_waybills-own company f p db ws ws' e =
    ap
      (λ (found : List Waybill).
        (items (to_skip_take p) (order_by (is_newer db) found), page_meta (length found) p))
      (find_many-agrees (build_waybill_where db (record f { assigned_operator_id = some company }))
        (is_assigned company) ws ws' (λ w h. ground (arith, h)) e)

-- Two tables of waybills that differ only in ids, owners, trips, phone numbers, declared values, quote notes and
-- payment references, and not in the rows of one company: anyone who tracks a number gets the same answer, and that
-- company the same list, whatever it filters by.
pub private_columns_unseen :
    (n company : ℕ) (f : WaybillListFilter) (p : PaginationQuery) (db : Tables)
    (ws ws' : List Waybill)
    → map redacted ws ≡ map redacted ws'
    → find_many (is_assigned company) ws ≡ find_many (is_assigned company) ws'
    → (track_waybill n ws ≡ track_waybill n ws')
      × (list_waybills f (record { role = operator; operator_id = some company }) p db ws
          ≡ list_waybills f (record { role = operator; operator_id = some company }) p db ws')
private_columns_unseen n company f p db ws ws' e own = (
  track_waybill-blind n ws ∙ ap (track_waybill n) e ∙ sym (track_waybill-blind n ws'),
  list_waybills-own company f p db ws ws' own,
)
