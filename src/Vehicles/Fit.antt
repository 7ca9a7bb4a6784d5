-- ===== src/Vehicles/Fit.antt =====
-- Every vehicle keeps the seats that its type must have, except under a race.
use transhub.Prelude.{
  find_first-update, le→ltb, ℕ, ◌<◌, ◌≤◌, ◌≡◌, refl, ◌∙◌, inl, inr, false, none, some, List, [],
  ◌∷◌, ◌==◌, ltb, is_some, All, All-update_many, update_by_key-All, IsKeyed, Absent-of_find,
  update_many-IsKeyed, le→ltb, arith, Bool-cases, Option-cases, ==_refl, update_many, find_first,
  find_first-some,
}
use transhub.Errors.{Result, returns, throws, Ensures}
use transhub.Errors.{Ensures}
use transhub.Vehicles.{
  van, minibus, Vehicle, CreateVehicleInput, UpdateVehicleInput, min_capacity, assert_capacity,
  find_vehicle, new_vehicle, create, add_vehicle, patched, update, update_vehicle, remove_vehicle,
  or_else, plate_taken, has_plate,
}

-- A vehicle has the seats of its type.
abbrev pub IsFitVehicle : Vehicle → Type 0
unfolding min_capacity
IsFitVehicle v = min_capacity v.vehicle_type ≤ v.capacity

pub record IsFit (vehicles : List Vehicle) : Type 0 where
  pub keyed : IsKeyed (λ (v : Vehicle). v.id) vehicles
  pub fit : All IsFitVehicle vehicles

not_below : (a b : ℕ) → ltb a b ≡ false → b ≤ a
not_below a b h = ground (arith, h)

add_vehicle-IsFit :
    (i operator : ℕ) (d : CreateVehicleInput) (vehicles : List Vehicle)
    → IsFit vehicles
    → Ensures (λ r. IsFit r.1) (add_vehicle i operator d vehicles)
unfolding add_vehicle assert_capacity create new_vehicle find_vehicle
add_vehicle-IsFit i operator d vehicles ok =
    elim (Bool-cases (ltb d.capacity (min_capacity d.vehicle_type))) [
      | inl e ↦ rw (add_vehicle, assert_capacity, e) tt
      | inr e ↦ elim (Option-cases (find_vehicle i vehicles)) [
        | inr (w, f) ↦ rw (add_vehicle, assert_capacity, e, create, new_vehicle, f) tt
        | inl f ↦ elim (Bool-cases (is_some (find_first (has_plate d.plate) vehicles))) [
          | inl g ↦ rw (add_vehicle, assert_capacity, e, create, new_vehicle, f, g) tt
          | inr g ↦
              rw (add_vehicle, assert_capacity, e, create, new_vehicle, f, g)
                (record {
                  keyed = (Absent-of_find (λ (v : Vehicle). v.id) i vehicles f, ok.keyed);
                  fit = (not_below d.capacity (min_capacity d.vehicle_type) e, ok.fit);
                })
        ]
      ]
    ]

update_vehicle-IsFit :
    (i operator : ℕ) (d : UpdateVehicleInput) (vehicles : List Vehicle)
    → IsFit vehicles
    → Ensures (λ r. IsFit r.1) (update_vehicle (λ s. s) i operator d vehicles)
unfolding update_vehicle assert_capacity update find_vehicle patched IsFitVehicle
update_vehicle-IsFit i operator d vehicles ok = elim (Option-cases (find_vehicle i vehicles)) [
  | inl e ↦ rw (update_vehicle, e) tt
  | inr (v, e) ↦ elim (Bool-cases (v.operator_id == operator)) [
    | inr o ↦ rw (update_vehicle, e, o) tt
    | inl o ↦
        elim (Bool-cases (
          ltb (or_else d.capacity v.capacity)
            (min_capacity (or_else d.vehicle_type v.vehicle_type)))) [
              | inl c ↦ rw (update_vehicle, e, o, assert_capacity, c) tt
              | inr c ↦ elim (Bool-cases (plate_taken i d.plate vehicles)) [
                | inl t ↦ rw (update_vehicle, e, o, assert_capacity, c, update, e, t) tt
                | inr t ↦
                    rw (update_vehicle, e, o, assert_capacity, c, update, e, t)
                      (record {
                        keyed =
                            update_many-IsKeyed (λ (x : Vehicle). x.id) (λ x. x.id == i) (patched d)
                              vehicles (λ x. refl) ok.keyed;
                        fit =
                            update_by_key-All (λ (x : Vehicle). x.id) IsFitVehicle i (patched d)
                              vehicles v ok.keyed e
                              (not_below (or_else d.capacity v.capacity)
                                (min_capacity (or_else d.vehicle_type v.vehicle_type)) c)
                              ok.fit;
                      })
              ]
            ]
  ]
]

remove_vehicle-IsFit :
    (i operator : ℕ) (vehicles : List Vehicle)
    → IsFit vehicles
    → Ensures IsFit (remove_vehicle i operator vehicles)
unfolding remove_vehicle IsFitVehicle
remove_vehicle-IsFit i operator vehicles ok = elim (Option-cases (find_vehicle i vehicles)) [
  | inl e ↦ rw (remove_vehicle, e) tt
  | inr (v, e) ↦ elim (Bool-cases (v.operator_id == operator)) [
    | inr o ↦ rw (remove_vehicle, e, o) tt
    | inl o ↦
        rw (remove_vehicle, e, o)
          (record {
            keyed =
                update_many-IsKeyed (λ (x : Vehicle). x.id) (λ x. x.id == i)
                  (λ x. record x { is_active = false }) vehicles (λ x. refl) ok.keyed;
            fit =
                All-update_many IsFitVehicle (λ x. x.id == i) (λ x. record x { is_active = false })
                  vehicles (λ x r h. h) ok.fit;
          })
  ]
]

-- The requests that write vehicles, each by the company that is logged in.
pub data Request : Type 0 where
  addition : ℕ → ℕ → CreateVehicleInput → Request
  change : ℕ → ℕ → UpdateVehicleInput → Request
  removal : ℕ → ℕ → Request

-- The rows afterwards: a throw leaves them as they were.
abbrev rows_after : {A : Type 0} → (A → List Vehicle) → List Vehicle → Result A → List Vehicle
rows_after f old (throws t) = old
rows_after f old (returns a) = f a

unfoldable pub serve : Request → List Vehicle → List Vehicle
unfolding add_vehicle update_vehicle remove_vehicle
serve (addition i operator d) vs = rows_after (λ r. r.1) vs (add_vehicle i operator d vs)
serve (change i operator d) vs = rows_after (λ r. r.1) vs (update_vehicle (λ s. s) i operator d vs)
serve (removal i operator) vs = rows_after (λ r. r) vs (remove_vehicle i operator vs)

unfoldable pub serve_all : List Request → List Vehicle → List Vehicle
unfolding serve
serve_all [] vs = vs
serve_all (r ∷ rs) vs = serve_all rs (serve r vs)

rows_after-IsFit :
    {A : Type 0} (f : A → List Vehicle) (old : List Vehicle) (m : Result A)
    → IsFit old
    → Ensures (λ r. IsFit (f r)) m
    → IsFit (rows_after f old m)
rows_after-IsFit f old (throws t) ok h = ok
rows_after-IsFit f old (returns a) ok h = h

serve-IsFit : (r : Request) (vs : List Vehicle) → IsFit vs → IsFit (serve r vs)
unfolding serve
serve-IsFit (addition i operator d) vs ok =
    rows_after-IsFit (λ r. r.1) vs (add_vehicle i operator d vs) ok
      (add_vehicle-IsFit i operator d vs ok)
serve-IsFit (change i operator d) vs ok =
    rows_after-IsFit (λ r. r.1) vs (update_vehicle (λ s. s) i operator d vs) ok
      (update_vehicle-IsFit i operator d vs ok)
serve-IsFit (removal i operator) vs ok =
    rows_after-IsFit (λ r. r) vs (remove_vehicle i operator vs) ok
      (remove_vehicle-IsFit i operator vs ok)

-- Every sequence of additions, changes and removals that do not overlap, whether they return or throw,
-- keeps ids unique and every vehicle at or above the smallest capacity of its type.
pub serve_all-IsFit : (rs : List Request) (vs : List Vehicle) → IsFit vs → IsFit (serve_all rs vs)
unfolding serve_all
serve_all-IsFit [] vs ok = ok
serve_all-IsFit (r ∷ rs) vs ok = serve_all-IsFit rs (serve r vs) (serve-IsFit r vs ok)

abbrev pub unchanged : UpdateVehicleInput
unchanged = record { plate = none; make = none; model = none; capacity = none; vehicle_type = none }

-- Two changes of a van with at least ten seats that overlap: the one that makes it a minibus checks the
-- capacity that it has read, the one that takes the capacity down to five checks the type that it has
-- read, both return, and the vehicle is a minibus with five seats, below the smallest capacity.
capacity_raced :
    (i : ℕ) (vehicles : List Vehicle) (v : Vehicle)
    → find_vehicle i vehicles ≡ some v
    → v.vehicle_type ≡ van
    → 10 ≤ v.capacity
    → let smaller = record unchanged { capacity = some 5 } in
      let retyped = record unchanged { vehicle_type = some minibus } in
      (first : Vehicle × List Vehicle) × (both : Vehicle × List Vehicle) × (update_vehicle
          (λ s. s)
          i
          v.operator_id
          smaller
          vehicles
        ≡ returns first)
      × (update_vehicle (λ s. first.1) i v.operator_id retyped vehicles ≡ returns both)
      × (find_vehicle i both.1 ≡ some (record v { vehicle_type = minibus; capacity = 5 }))
      × (((both.0).capacity < min_capacity (both.0).vehicle_type))
unfolding update_vehicle assert_capacity update find_vehicle patched min_capacity
capacity_raced i vehicles v found is_van large =
    let smaller = record unchanged { capacity = some 5 } in
    let retyped = record unchanged { vehicle_type = some minibus } in
    let own = (find_first-some (λ (x : Vehicle). x.id == i) vehicles v found).1 in
    let one =
      find_first-update (λ (x : Vehicle). x.id) i (λ x. x.id == i) (patched smaller) vehicles v
        (λ x. refl) found
      ∙ rw own refl in
    let rows = update_many (λ (x : Vehicle). x.id == i) (patched smaller) vehicles in
    let two =
      find_first-update (λ (x : Vehicle). x.id) i (λ x. x.id == i) (patched retyped) rows
        (patched smaller v) (λ x. refl) one
      ∙ rw own refl in
    let five : ltb 5 (min_capacity v.vehicle_type) ≡ false = rw is_van refl in
    (
      (patched smaller v, rows),
      (patched retyped (patched smaller v), update_many (λ x. x.id == i) (patched retyped) rows),
      rw (update_vehicle, found, ==_refl v.operator_id, assert_capacity, five, update, found) refl,
      rw
          (
            update_vehicle,
            found,
            ==_refl v.operator_id,
            assert_capacity,
            le→ltb v.capacity 10 large,
            update,
            one,
          )
          refl,
      two,
      omega arith,
    )
