-- ===== src/Roles.antt =====
-- backend/src/shared/types/auth.ts and backend/src/middleware/rbac.ts: roles, and the guard of a
-- route.
use transhub.Prelude.{
  ◌≡◌, refl, ◌⊎◌, inl, inr, Bool, true, false, ◌||◌, not, Option, none, some, List, [], ◌∷◌,
}
use transhub.Errors.{Result, throws, throw_if, app, unauthorized_error, forbidden_error}

pub data Role : Type 0 where
  passenger operator admin driver : Role

abbrev pub same_role : Role → Role → Bool
same_role passenger passenger = true
same_role operator operator = true
same_role admin admin = true
same_role driver driver = true
same_role _ _ = false

abbrev pub includes_role : List Role → Role → Bool
includes_role [] r = false
includes_role (q ∷ qs) r = same_role q r || includes_role qs r

-- The role of `req.user`, if `authenticate` has set it.
unfoldable pub require_role : {A : Type 0} → List Role → Option Role → Result A → Result A
require_role roles none next = throws (app unauthorized_error)
require_role roles (some r) next = throw_if (not (includes_role roles r)) forbidden_error next

pub Role-cases :
    (r : Role)
    → (r ≡ admin) ⊎ ((r ≡ operator) ⊎ ((same_role r admin || same_role r operator) ≡ false))
Role-cases passenger = inr (inr refl)
Role-cases operator = inr (inl refl)
Role-cases admin = inl refl
Role-cases driver = inr (inr refl)
