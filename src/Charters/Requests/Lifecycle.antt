-- ===== src/Charters/Requests/Lifecycle.antt =====
-- The charters table through any sequence of requests.
use transhub.Prelude.{ℕ, Option, List, [], ◌∷◌, arith}
use transhub.Roles.{admin, passenger}
use transhub.Charters.{Charter, awaiting_payment, cancelled}
use transhub.Charters.Service.{accept_quote, reject_quote}
use transhub.Charters.Requests.{
  Request, create, quote, accept, reject, pay, webhook, verify, confirm_booking, complete, cancel,
  serve, serve_all,
}
use transhub.Charters.Requests.Invariant.{TableInv, accepted-Inv, cancelled-Inv}
use transhub.Charters.Requests.Webhook.{webhook-TableInv}
use transhub.Charters.Requests.Handlers.{
  require_role-Keeps, answer_quote-Keeps, send_quote-Keeps, confirm_booking-Keeps, complete-Keeps,
  cancel-Keeps, initiate-Keeps, verify-Keeps, create-Keeps,
}

serve-TableInv :
    (cs : List Charter) (t : TableInv cs) (to_kobo : ℕ → Option ℕ) (r : Request)
    → TableInv (serve to_kobo cs r)
unfolding serve accept_quote reject_quote
serve-TableInv cs t to_kobo (create role now i number user d) =
    (require_role-Keeps cs t (passenger ∷ []) role _ (create-Keeps cs t now i number user d)).kept
serve-TableInv cs t to_kobo (quote role i d) =
    (require_role-Keeps cs t (admin ∷ []) role _ (send_quote-Keeps cs t i d)).kept
serve-TableInv cs t to_kobo (accept role i user) =
    (require_role-Keeps cs t (passenger ∷ []) role _
      (answer_quote-Keeps cs t awaiting_payment i user (λ c g v. accepted-Inv c v g))).kept
serve-TableInv cs t to_kobo (reject role i user) =
    (require_role-Keeps cs t (passenger ∷ []) role _ (
      answer_quote-Keeps cs t cancelled i user
        (λ c g v. cancelled-Inv c v (ground (arith, g))))).kept
serve-TableInv cs t to_kobo (pay role initialize i user) =
    (require_role-Keeps cs t (passenger ∷ []) role _ (initiate-Keeps cs t initialize i user)).kept
serve-TableInv cs t to_kobo (webhook i paid_at received) =
    webhook-TableInv cs t to_kobo i paid_at received
serve-TableInv cs t to_kobo (verify role lookup now i user) =
    (require_role-Keeps cs t (passenger ∷ []) role _
      (verify-Keeps cs t to_kobo lookup now i user)).kept
serve-TableInv cs t to_kobo (confirm_booking role i d) =
    (require_role-Keeps cs t (admin ∷ []) role _ (confirm_booking-Keeps cs t i d)).kept
serve-TableInv cs t to_kobo (complete role now i) =
    (require_role-Keeps cs t (admin ∷ []) role _ (complete-Keeps cs t now i)).kept
serve-TableInv cs t to_kobo (cancel i user role) = (cancel-Keeps cs t i user role).kept

-- From a table in order, such as the empty one, every sequence of requests leads to a table in order: ids are
-- unique, and of every charter a price is set from its quote on; it has a payment time exactly if it is confirmed
-- or completed, and then the amount paid is the price quoted; only such a charter has a company assigned; and the
-- time of completion is set exactly if it is completed.
pub charters_kept :
    (to_kobo : ℕ → Option ℕ) (rs : List Request) (cs : List Charter)
    → TableInv cs
    → TableInv (serve_all to_kobo cs rs)
unfolding serve_all
charters_kept to_kobo [] cs t = t
charters_kept to_kobo (r ∷ rs) cs t =
    charters_kept to_kobo rs (serve to_kobo cs r) (serve-TableInv cs t to_kobo r)
