-- ===== src/Sim/Behaviour.antt =====
-- What a pass does: the rule of a transaction, the use of id tags, and two corner cases.
use open_ocpp_simu.Common.{
  ℕ, ◌≡◌, inl, inr, refl, Bool, true, false, [], ◌∷◌, List, Option, some, arith, if◌then◌else◌,
}
use open_ocpp_simu.Ocpp.{
  ChargePointStatus, available, preparing, charging, suspended_evse, suspended_ev, finishing,
  reserved, unavailable, faulted, no_error, Calls, StackCall, Stack,
}
use open_ocpp_simu.Float.{FloatOps}
use open_ocpp_simu.Sim.World.{World, Connector, ◌>>=◌, notify}
use open_ocpp_simu.Sim.IdTag.{is_transaction_stop_condition}
use open_ocpp_simu.Sim.Step.{
  is_limited, leave_suspended_evse, leave_suspended_ev, leave_charging, step_transaction, dispatch,
  step,
}
use open_ocpp_simu.Sim.Permitted.{InTransaction, Permitted, Adds}
use open_ocpp_simu.Sim.Safety.{step-Permitted}

abbrev pub changes_to : ChargePointStatus → ChargePointStatus → Bool
changes_to suspended_evse suspended_evse = false
changes_to suspended_ev suspended_ev = false
changes_to charging charging = false
changes_to from to = true

-- The call notifies no fault.
abbrev pub NoFault : StackCall → Type 0
NoFault (StackCall.status_notification id faulted code) = ⊥
NoFault _ = Unit {0}

Adds-imp :
    (P Q : StackCall → Type 0)
    → ((x : StackCall) → P x → Q x)
    → (a b : Calls) → Adds P a b
    → Adds Q a b
Adds-imp P Q g a [] h = h
Adds-imp P Q g a (x ∷ xs) (inl e) = inl e
Adds-imp P Q g a (x ∷ xs) (inr (p, h)) = inr (g x p, Adds-imp P Q g a xs h)

module _ {F : Type 0} ⦃f : FloatOps F⦄ where
  no_fault : (c : Connector F) (x : StackCall) → Permitted c preparing x → NoFault x
  no_fault c (StackCall.status_notification id faulted code) p = p.1
  no_fault c (StackCall.status_notification id available code) p = tt
  no_fault c (StackCall.status_notification id preparing code) p = tt
  no_fault c (StackCall.status_notification id charging code) p = tt
  no_fault c (StackCall.status_notification id suspended_evse code) p = tt
  no_fault c (StackCall.status_notification id suspended_ev code) p = tt
  no_fault c (StackCall.status_notification id finishing code) p = tt
  no_fault c (StackCall.status_notification id reserved code) p = tt
  no_fault c (StackCall.status_notification id unavailable code) p = tt
  no_fault c StackCall.get_registration_status p = tt
  no_fault c (StackCall.get_connector_status id) p = tt
  no_fault c (StackCall.authorize id tag) p = tt
  no_fault c (StackCall.start_transaction id tag) p = tt
  no_fault c (StackCall.stop_transaction id tag reason) p = tt
  no_fault c (StackCall.get_setpoint id unit) p = tt

  -- The status of a transaction that goes on: no power from the station, else none from the car.
  abbrev pub target : Connector F → ChargePointStatus
  target c = if is_limited c then suspended_evse else if c.car_ready then charging else suspended_ev

  -- The status that a transaction notifies, if it notifies one.
  abbrev pub notified : ChargePointStatus → Connector F → Bool → List ChargePointStatus
  notified st c stop =
      if stop then finishing ∷ [] else if changes_to st (target c) then target c ∷ [] else []

  abbrev pub with_notifications : ℕ → List ChargePointStatus → World F → World F
  with_notifications id [] w = w
  with_notifications id (st ∷ sts) w =
      let v = with_notifications id sts w in
      record v { calls = StackCall.status_notification id st no_error ∷ v.calls }

  leaves :
      (c : Connector F) (v : World F) (stop : Bool)
      → let after : ChargePointStatus → Option (Connector F × World F) =
          λ st. some (c, with_notifications c.id (notified st c stop) v) in
        ((if stop then notify c finishing else leave_suspended_evse c) v ≡ after suspended_evse)
        × ((if stop then notify c finishing else leave_suspended_ev c) v ≡ after suspended_ev)
        × ((if stop then notify c finishing else leave_charging c) v ≡ after charging)
  unfolding leave_suspended_evse leave_suspended_ev leave_charging notify
  leaves c v true = (refl, refl, refl)
  leaves c v false = (ground arith, ground arith, ground arith)

  transaction :
      (st : ChargePointStatus) (s : Stack F) (c : Connector F) (w v : World F) (stop : Bool)
      → InTransaction st
      → is_transaction_stop_condition s c w ≡ some (stop, v)
      → dispatch st s c w ≡ some (c, with_notifications c.id (notified st c stop) v)
  unfolding dispatch step_transaction
  transaction suspended_evse s c w v stop h e = rw (e, ◌>>=◌) (leaves c v stop).0
  transaction suspended_ev s c w v stop h e = rw (e, ◌>>=◌) (leaves c v stop).1
  transaction charging s c w v stop h e = rw (e, ◌>>=◌) (leaves c v stop).2
  transaction available s c w v stop h e = elim h [ ]
  transaction preparing s c w v stop h e = elim h [ ]
  transaction finishing s c w v stop h e = elim h [ ]
  transaction reserved s c w v stop h e = elim h [ ]
  transaction unavailable s c w v stop h e = elim h [ ]
  transaction faulted s c w v stop h e = elim h [ ]

  -- In the three statuses of a transaction, a pass notifies `Finishing` if the stop condition holds,
  -- else the status that follows from the setpoint and the car if it is another one, and nothing else.
  pub step_transaction_lem :
      (s : Stack F) (c : Connector F) (w v : World F) (stop : Bool)
      → InTransaction c.status
      → is_transaction_stop_condition s c w ≡ some (stop, v)
      → step s c w ≡ some (c, with_notifications c.id (notified c.status c stop) v)
  unfolding step
  step_transaction_lem s c w v stop h e = transaction c.status s c w v stop h e

  -- A pass over a preparing connector never reports `Faulted`: of the calls that it adds, none is a
  -- status notification of a fault, even while a fault is pending.
  pub step-preparing_not_faulted :
      (s : Stack F) (c d : Connector F) (w v : World F)
      → c.status ≡ preparing
      → step s c w ≡ some (d, v)
      → Adds NoFault w.calls v.calls
  step-preparing_not_faulted s c d w v st e =
      Adds-imp (Permitted c c.status) NoFault (λ x p. no_fault c x (rw⁻¹ st p)) w.calls v.calls
        (step-Permitted s c w v d e)
