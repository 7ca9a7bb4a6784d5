-- ===== src/Vehicles.antt =====
-- The vehicles of the companies (backend/src/modules/vehicles).
pub mod Fit
mod Tests
use transhub.Prelude.{
  ℕ, zero, suc, ◌+◌, ◌-◌, ◌*◌, ◌/◌, ◌%◌, ◌<◌, ◌≤◌, ◌≡◌, ◌≢◌, ◌↔◌, refl, sym, ap, ◌∙◌, ◌⊎◌, inl, inr,
  subst, Bool, true, false, not, ◌&&◌, ◌||◌, Option, none, some, List, [], ◌∷◌, ◌++◌, ◌==◌, ltb,
  leb, if◌then◌else◌, is_some, is, find_many, All, All-In, All-update_many, update_by_key-All,
  IsKeyed, Absent-of_find, update_many-IsKeyed, le→ltb, arith, Bool-cases, Option-cases, ==_iff,
  ==_refl, update_many, count_where, find_first, find_first-some,
}
use transhub.Errors.{Result, returns, throws, ◌>>=◌, throw_if, Ensures}
use transhub.Errors.{
  Thrown, app, unique_violation, prisma_fault, forbidden_error, not_found_error, conflict_error,
  conflict,
}

-- The four types that the schema lets through.
pub data VehicleType : Type 0 where
  bus minibus coaster van : VehicleType

pub record Vehicle : Type 0 where
  pub id : ℕ
  pub operator_id : ℕ
  pub plate : ℕ
  pub make : ℕ
  pub model : ℕ
  pub capacity : ℕ
  pub vehicle_type : VehicleType
  pub is_active : Bool

pub record CreateVehicleInput : Type 0 where
  pub plate : ℕ
  pub make : ℕ
  pub model : ℕ
  pub capacity : ℕ
  pub vehicle_type : VehicleType

pub record UpdateVehicleInput : Type 0 where
  pub plate : Option ℕ
  pub make : Option ℕ
  pub model : Option ℕ
  pub capacity : Option ℕ
  pub vehicle_type : Option VehicleType

unfoldable pub min_capacity : VehicleType → ℕ
min_capacity bus = 20
min_capacity minibus = 10
min_capacity coaster = 30
min_capacity van = 5

-- `assertCapacity` before the rest of a function.
unfoldable pub assert_capacity : {A : Type 0} → VehicleType → ℕ → Result A → Result A
unfolding min_capacity
assert_capacity type capacity rest =
    throw_if (ltb capacity (min_capacity type)) (conflict_error conflict) rest

unfoldable pub find_vehicle : ℕ → List Vehicle → Option Vehicle
find_vehicle i = find_first (λ v. v.id == i)

abbrev pub has_plate : ℕ → Vehicle → Bool
has_plate plate v = v.plate == plate

unfoldable pub new_vehicle : ℕ → ℕ → CreateVehicleInput → Vehicle
new_vehicle i operator d = record {
  id = i;
  operator_id = operator;
  plate = d.plate;
  make = d.make;
  model = d.model;
  capacity = d.capacity;
  vehicle_type = d.vehicle_type;
  is_active = true;
}

-- `create`, with the primary key and the unique index on `plate`.
unfoldable pub create : Vehicle → List Vehicle → Result (List Vehicle)
unfolding find_vehicle
create v vehicles =
    if is_some (find_vehicle v.id vehicles) || is_some (find_first (has_plate v.plate) vehicles)
    then throws unique_violation
    else returns (v ∷ vehicles)

unfoldable pub add_vehicle :
    ℕ → ℕ → CreateVehicleInput → List Vehicle → Result (Vehicle × List Vehicle)
unfolding assert_capacity create new_vehicle
add_vehicle i operator d vehicles =
    assert_capacity d.vehicle_type d.capacity (do
      rows ← create (new_vehicle i operator d) vehicles
      returns (new_vehicle i operator d, rows))

-- A field that the input leaves out keeps its value.
abbrev pub or_else : {A : Type 0} → Option A → A → A
or_else none old = old
or_else (some new) old = new

unfoldable pub patched : UpdateVehicleInput → Vehicle → Vehicle
patched d v = record v {
  plate = or_else d.plate v.plate;
  make = or_else d.make v.make;
  model = or_else d.model v.model;
  capacity = or_else d.capacity v.capacity;
  vehicle_type = or_else d.vehicle_type v.vehicle_type;
}

-- Whether another row has the plate that an update writes.
abbrev pub plate_taken : ℕ → Option ℕ → List Vehicle → Bool
plate_taken i none vehicles = false
plate_taken i (some plate) vehicles =
    is_some (find_first (λ v. not (v.id == i) && has_plate plate v) vehicles)

-- `update`: the row must be there, and the plate must be free.
unfoldable pub update : ℕ → UpdateVehicleInput → List Vehicle → Result (Vehicle × List Vehicle)
unfolding find_vehicle patched
update i d vehicles = elim (find_vehicle i vehicles) [
  | none ↦ throws prisma_fault
  | some v ↦
      if plate_taken i d.plate vehicles
      then throws unique_violation
      else returns (patched d v, update_many (λ x. x.id == i) (patched d) vehicles)
]

-- What other requests write between the read and the update is `meanwhile`.
unfoldable pub update_vehicle :
    (List Vehicle → List Vehicle)
    → ℕ
    → ℕ
    → UpdateVehicleInput
    → List Vehicle
    → Result (Vehicle × List Vehicle)
unfolding find_vehicle assert_capacity update
update_vehicle meanwhile i operator d vehicles = elim (find_vehicle i vehicles) [
  | none ↦ throws (app not_found_error)
  | some v ↦ throw_if (not (v.operator_id == operator)) forbidden_error (
      assert_capacity (or_else d.vehicle_type v.vehicle_type) (or_else d.capacity v.capacity)
        (update i d (meanwhile vehicles)))
]

unfoldable pub remove_vehicle : ℕ → ℕ → List Vehicle → Result (List Vehicle)
unfolding find_vehicle
remove_vehicle i operator vehicles = elim (find_vehicle i vehicles) [
  | none ↦ throws (app not_found_error)
  | some v ↦
      throw_if (not (v.operator_id == operator)) forbidden_error
        (returns (update_many (λ x. x.id == i) (λ x. record x { is_active = false }) vehicles))
]
