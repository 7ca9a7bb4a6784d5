-- ===== src/Charters/Requests/Invariant.antt =====
-- What holds of every charter row between two requests, and the writes that keep it.
use transhub.Prelude.{ℕ, ◌≡◌, refl, sym, Bool, true, ◌||◌, some, List, is_some, arith, All, IsKeyed}
use transhub.Charters.{
  Charter, CharterStatus, pending, quote_sent, awaiting_payment, confirmed, completed, cancelled,
  same_status, CreateCharterInput, SendQuoteInput, ConfirmBookingInput, new_charter, with_status,
  quoted, paid_charter, with_booking, done,
}
use transhub.Charters.Service.{is_paid, is_cancellable}

-- A quote has been sent, and not turned down.
abbrev pub is_quoted : CharterStatus → Bool
is_quoted s = same_status s quote_sent || same_status s awaiting_payment || is_paid s

pub record Inv (c : Charter) : Type 0 where
  pub has_price : is_quoted c.status ≡ true → is_some c.quoted_price ≡ true
  pub has_paid : is_some c.paid_at ≡ is_paid c.status
  pub has_amount : is_paid c.status ≡ true → c.paid_amount ≡ c.quoted_price
  pub has_travel : is_some c.assigned_operator ≡ true → is_paid c.status ≡ true
  pub has_completed : is_some c.completed_at ≡ same_status c.status completed

pub new_charter-Inv :
    (i number user : ℕ) (d : CreateCharterInput) → Inv (new_charter i number user d)
unfolding new_charter
new_charter-Inv i number user d = record {
  has_price = ground arith;
  has_paid = refl;
  has_amount = ground arith;
  has_travel = ground arith;
  has_completed = refl;
}

module _ (c : Charter) (v : Inv c) where
  pub quoted-Inv : (d : SendQuoteInput) → same_status c.status pending ≡ true → Inv (quoted d c)
  unfolding quoted
  quoted-Inv d s = record {
    has_price = λ h. refl;
    has_paid = ground (arith, s, v.has_paid);
    has_amount = ground arith;
    has_travel = ground (arith, s, v.has_travel);
    has_completed = ground (arith, s, v.has_completed);
  }

  pub accepted-Inv : same_status c.status quote_sent ≡ true → Inv (with_status awaiting_payment c)
  accepted-Inv s = record {
    has_price = λ h. v.has_price (ground (arith, s));
    has_paid = ground (arith, s, v.has_paid);
    has_amount = ground arith;
    has_travel = ground (arith, s, v.has_travel);
    has_completed = ground (arith, s, v.has_completed);
  }

  pub cancelled-Inv : is_cancellable c.status ≡ true → Inv (with_status cancelled c)
  cancelled-Inv s = record {
    has_price = ground arith;
    has_paid = ground (arith, s, v.has_paid);
    has_amount = ground arith;
    has_travel = ground (arith, s, v.has_travel);
    has_completed = ground (arith, s, v.has_completed);
  }

  pub paid_charter-Inv :
      (paid_at price : ℕ)
      → c.quoted_price ≡ some price
      → same_status c.status awaiting_payment ≡ true
      → Inv (paid_charter paid_at price c)
  unfolding paid_charter
  paid_charter-Inv paid_at price e s = record {
    has_price = λ h. v.has_price (ground (arith, s));
    has_paid = refl;
    has_amount = λ h. sym e;
    has_travel = λ h. refl;
    has_completed = ground (arith, s, v.has_completed);
  }

  pub ref-Inv : (ref : ℕ) → Inv (record c { payment_ref = some ref })
  ref-Inv ref = record {
    has_price = v.has_price;
    has_paid = v.has_paid;
    has_amount = v.has_amount;
    has_travel = v.has_travel;
    has_completed = v.has_completed;
  }

  pub with_booking-Inv :
      (d : ConfirmBookingInput) → same_status c.status confirmed ≡ true → Inv (with_booking d c)
  unfolding with_booking
  with_booking-Inv d s = record {
    has_price = v.has_price;
    has_paid = v.has_paid;
    has_amount = v.has_amount;
    has_travel = ground (arith, s);
    has_completed = v.has_completed;
  }

  pub done-Inv : (now : ℕ) → same_status c.status confirmed ≡ true → Inv (done now c)
  done-Inv now s = record {
    has_price = λ h. v.has_price (ground (arith, s));
    has_paid = ground (arith, s, v.has_paid);
    has_amount = λ h. v.has_amount (ground (arith, s));
    has_travel = λ h. refl;
    has_completed = refl;
  }

pub record TableInv (cs : List Charter) : Type 0 where
  pub rows : All Inv cs
  pub keyed : IsKeyed (λ c. c.id) cs
