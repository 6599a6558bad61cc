-- ===== src/Sim/Permitted.antt =====
-- Which calls a pass of the control loop may make for a connector, told independently of the code.
use open_ocpp_simu.Common.{true, false, ◌≡◌, refl, ◌≢◌, ◌⊎◌, inl, inr, [], ◌∷◌}
use open_ocpp_simu.Ocpp.{
  ChargePointStatus, available, preparing, charging, suspended_evse, suspended_ev, finishing,
  reserved, unavailable, faulted, Reason, local, remote, ev_disconnected, other, Calls, StackCall,
}
use open_ocpp_simu.Float.{FloatOps}
use open_ocpp_simu.Sim.World.{Connector}
use open_ocpp_simu.Sim.IdTag.{is_plugged}
use open_ocpp_simu.Sim.Step.{is_limited}

-- The statuses of a running transaction.
abbrev pub InTransaction : ChargePointStatus → Type 0
InTransaction suspended_evse = Unit {0}
InTransaction suspended_ev = Unit {0}
InTransaction charging = Unit {0}
InTransaction _ = ⊥

-- The statuses in which an id tag is asked about.
abbrev pub TakesTag : ChargePointStatus → Type 0
TakesTag available = Unit {0}
TakesTag preparing = Unit {0}
TakesTag reserved = Unit {0}
TakesTag suspended_evse = Unit {0}
TakesTag suspended_ev = Unit {0}
TakesTag charging = Unit {0}
TakesTag _ = ⊥

module _ {F : Type 0} ⦃f : FloatOps F⦄ where
  -- The status changes of a connector, each with its condition.
  abbrev pub Transition : Connector F → ChargePointStatus → ChargePointStatus → Type 0
  Transition c available preparing = Unit {0}
  Transition c available faulted = (is_plugged c ≡ false) × (c.fault_pending ≡ true)
  Transition c available unavailable =
      (is_plugged c ≡ false) × (c.fault_pending ≡ false) × (c.unavailable_pending ≡ true)
  Transition c preparing suspended_evse = (is_plugged c ≡ true) × (is_limited c ≡ true)
  Transition c preparing suspended_ev =
      (is_plugged c ≡ true) × (is_limited c ≡ false) × (c.car_ready ≡ false)
  Transition c preparing charging =
      (is_plugged c ≡ true) × (is_limited c ≡ false) × (c.car_ready ≡ true)
  Transition c preparing available = (is_plugged c ≡ false) ⊎ (c.fault_pending ≡ false)
  Transition c preparing preparing = c.fault_pending ≡ true
  Transition c suspended_evse finishing = Unit {0}
  Transition c suspended_evse suspended_ev = (is_limited c ≡ false) × (c.car_ready ≡ false)
  Transition c suspended_evse charging = (is_limited c ≡ false) × (c.car_ready ≡ true)
  Transition c suspended_ev finishing = Unit {0}
  Transition c suspended_ev suspended_evse = is_limited c ≡ true
  Transition c suspended_ev charging = (is_limited c ≡ false) × (c.car_ready ≡ true)
  Transition c charging finishing = Unit {0}
  Transition c charging suspended_evse = is_limited c ≡ true
  Transition c charging suspended_ev = (is_limited c ≡ false) × (c.car_ready ≡ false)
  Transition c finishing faulted = c.fault_pending ≡ true
  Transition c finishing available = (is_plugged c ≡ false) × (c.fault_pending ≡ false)
  Transition c reserved preparing = Unit {0}
  Transition c reserved faulted = c.fault_pending ≡ true
  Transition c reserved unavailable = (c.fault_pending ≡ false) × (c.unavailable_pending ≡ true)
  Transition c faulted available = c.fault_pending ≡ false
  Transition c faulted unavailable = (c.fault_pending ≡ true) × (c.unavailable_pending ≡ true)
  Transition c _ _ = ⊥

  abbrev pub StopReason : Connector F → Reason → Type 0
  StopReason c local = Unit {0}
  StopReason c remote = Unit {0}
  StopReason c ev_disconnected = is_plugged c ≡ false
  StopReason c other = (is_plugged c ≡ true) × (c.fault_pending ≡ true)

  abbrev pub Permitted : Connector F → ChargePointStatus → StackCall → Type 0
  Permitted c st (StackCall.status_notification id to code) = (id ≡ c.id) × Transition c st to
  Permitted c st (StackCall.authorize id tag) = (id ≡ c.id) × TakesTag st
  Permitted c st (StackCall.start_transaction id tag) =
      (id ≡ c.id) × (st ≡ preparing) × (is_plugged c ≡ true) × (tag ≢ [])
  Permitted c st (StackCall.stop_transaction id tag reason) =
      (id ≡ c.id) × InTransaction st × StopReason c reason
  Permitted c st _ = ⊥

-- The later calls are the earlier ones and new ones, all of which satisfy `P`.
abbrev pub Adds : (StackCall → Type 0) → Calls → Calls → Type 0
Adds P old [] = old ≡ []
Adds P old (x ∷ xs) = (old ≡ x ∷ xs) ⊎ (P x × Adds P old xs)

pub Adds-refl : (P : StackCall → Type 0) (cs : Calls) → Adds P cs cs
Adds-refl P [] = refl
Adds-refl P (x ∷ xs) = inl refl

pub Adds-trans : (P : StackCall → Type 0) (a b c : Calls) → Adds P a b → Adds P b c → Adds P a c
Adds-trans P a b [] h k = rw k at h
Adds-trans P a b (x ∷ xs) h (inl e) = rw e at h
Adds-trans P a b (x ∷ xs) h (inr (p, k)) = inr (p, Adds-trans P a b xs h k)
