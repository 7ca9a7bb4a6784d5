-- ===== src/Waybills/Reads/Tests.antt =====
-- A waybill that company 7 carries, and one of which the owner and the phone numbers are changed.
use transhub.Prelude.{ℕ, ◌≡◌, refl, true, none, some, List, [], ◌∷◌, find_many}
use transhub.Roles.{operator}
use transhub.Waybills.{Waybill, CreateWaybillInput, new_waybill, quoted}
use transhub.Waybills.Reads.{WaybillListFilter, Tables, track_waybill, list_waybills}
use transhub.Waybills.Reads.Private.{private_columns_unseen}

abbrev parcel : ℕ → CreateWaybillInput
parcel phone = record {
  trip_id = none;
  sender_name = 1;
  sender_phone = phone;
  recipient_name = 3;
  recipient_phone = phone;
  from_location = 5;
  to_location = 6;
  description = 7;
  weight_kg = none;
  declared_value = none;
}

abbrev waybills : ℕ → ℕ → List Waybill
unfolding new_waybill quoted
waybills user phone =
    new_waybill 1 51 user (parcel phone)
    ∷ quoted 900 250000 7 none (new_waybill 2 52 42 (parcel 4))
    ∷ []

abbrev own : WaybillListFilter
own = record {
  status = none;
  trip_id = none;
  assigned_operator_id = some 9;
  user_id = none;
  date_from = none;
  date_to = none;
  search = some 4;
}

abbrev tables : Tables
tables = record { created_at = λ i. i; contains = λ q column. true }

private_columns_unseen_example :
    (track_waybill 51 (waybills 42 10) ≡ track_waybill 51 (waybills 43 20))
    × (list_waybills own
          (record { role = operator; operator_id = some 7 })
          (record { page = 1; limit = 10 })
          tables
          (waybills 42 10)
        ≡ list_waybills own
            (record { role = operator; operator_id = some 7 })
            (record { page = 1; limit = 10 })
            tables
            (waybills 43 20))
unfolding waybills find_many
private_columns_unseen_example =
    private_columns_unseen 51 7 own (record { page = 1; limit = 10 }) tables (waybills 42 10)
      (waybills 43 20) refl refl
