-- ===== src/Sim/Transactions/Quiet.antt =====
-- Calls that are not about the transactions of a connector.
use open_ocpp_simu.Common.{ℕ, ◌==◌, true, false, ◌≡◌, ◌≢◌, refl, sym, ◌∙◌, [], ◌∷◌, inl, inr, arith}
use open_ocpp_simu.Ocpp.{ChargePointStatus, Calls, StackCall, Stack}
use open_ocpp_simu.Float.{FloatOps}
use open_ocpp_simu.Sim.World.{Connector}
use open_ocpp_simu.Sim.Permitted.{Permitted, Adds}
use open_ocpp_simu.Sim.Transactions.{shows_transaction, is_open, Alternates, IsConsistent}

pub ==-refl : (h : ℕ) → (h == h) ≡ true
==-refl h = ground arith

-- No start, no stop and no notification of the connector in between.
abbrev pub Quiet : {F : Type 0} → Stack F → ℕ → Calls → Calls → Type 0
Quiet s id old new =
    (is_open s id new ≡ is_open s id old)
    × (shows_transaction id new ≡ shows_transaction id old)
    × (Alternates s id old → Alternates s id new)

pub Quiet-IsConsistent :
    {F : Type 0} (s : Stack F) (id : ℕ) (old new : Calls)
    → Quiet s id old new
    → IsConsistent s id old
    → IsConsistent s id new
Quiet-IsConsistent s id old new q h = (q.2 h.0, q.1 ∙ h.1 ∙ sym q.0)

pub Quiet-trans :
    {F : Type 0} (s : Stack F) (id : ℕ) (a b c : Calls)
    → Quiet s id a b
    → Quiet s id b c
    → Quiet s id a c
Quiet-trans s id a b c p q = (q.0 ∙ p.0, q.1 ∙ p.1, λ h. q.2 (p.2 h))

other_number : (i j k : ℕ) → i ≡ j → k ≢ j → (i == k) ≡ false
other_number i j k e n = ground arith

module _ {F : Type 0} ⦃f : FloatOps F⦄ (s : Stack F) (c : Connector F)
    (st : ChargePointStatus) where
  Permitted-Quiet :
      (id : ℕ) (x : StackCall) (cs : Calls) → id ≢ c.id → Permitted c st x → Quiet s id cs (x ∷ cs)
  Permitted-Quiet id (StackCall.status_notification other to code) cs n p =
      rw (other_number other c.id id p.0 n) (refl, refl, λ h. h)
  Permitted-Quiet id (StackCall.start_transaction other tag) cs n p =
      rw (other_number other c.id id p.0 n) (refl, refl, λ h. (refl, h))
  Permitted-Quiet id (StackCall.stop_transaction other tag reason) cs n p =
      rw (other_number other c.id id p.0 n) (refl, refl, λ h. (refl, h))
  Permitted-Quiet id (StackCall.authorize other tag) cs n p = (refl, refl, λ h. h)
  Permitted-Quiet id StackCall.get_registration_status cs n p = (refl, refl, λ h. h)
  Permitted-Quiet id (StackCall.get_connector_status other) cs n p = (refl, refl, λ h. h)
  Permitted-Quiet id (StackCall.get_setpoint other unit) cs n p = (refl, refl, λ h. h)

  pub Adds-Quiet :
      (id : ℕ) (old new : Calls) → id ≢ c.id → Adds (Permitted c st) old new → Quiet s id old new
  Adds-Quiet id old [] n e = rw e (refl, refl, λ h. h)
  Adds-Quiet id old (x ∷ xs) n (inl e) = rw e (refl, refl, λ h. h)
  Adds-Quiet id old (x ∷ xs) n (inr (p, k)) =
      Quiet-trans s id old xs (x ∷ xs) (Adds-Quiet id old xs n k) (Permitted-Quiet id x xs n p)
