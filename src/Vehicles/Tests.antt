-- ===== src/Vehicles/Tests.antt =====
-- A van and a bus of one company.
use transhub.Prelude.{true, some, [], ◌∷◌, arith}
use transhub.Vehicles.{Vehicle, CreateVehicleInput, bus, van, min_capacity}
use transhub.Vehicles.Fit.{IsFit, addition, change, removal, serve_all, serve_all-IsFit, unchanged}

abbrev shuttle : Vehicle
shuttle = record {
  id = 1;
  operator_id = 7;
  plate = 11;
  make = 2;
  model = 3;
  capacity = 12;
  vehicle_type = van;
  is_active = true;
}

abbrev coach : CreateVehicleInput
coach = record { plate = 12; make = 2; model = 4; capacity = 50; vehicle_type = bus }

-- The change asks for too few seats, and the second addition for a plate that is taken.
serve_all-IsFit_example : IsFit (
    serve_all
      (addition 2 7 coach
        ∷ change 2 7 (record unchanged { capacity = some 12 })
        ∷ addition 3 8 coach
        ∷ removal 1 7
        ∷ [])
      (shuttle ∷ []))
unfolding min_capacity
serve_all-IsFit_example =
    serve_all-IsFit
      (addition 2 7 coach
        ∷ change 2 7 (record unchanged { capacity = some 12 })
        ∷ addition 3 8 coach
        ∷ removal 1 7
        ∷ [])
      (shuttle ∷ []) (record { keyed = (tt, tt); fit = (omega arith, tt) })
