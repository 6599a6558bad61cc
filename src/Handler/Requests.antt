-- ===== src/Handler/Requests.antt =====
-- The requests of the central system that change what the control loop looks at. The order of the
-- statuses, which the Open OCPP library fixes, is a parameter.
use mathlib.Core.Option
use open_ocpp_simu.Common.{
  ℕ, zero, suc, Bool, true, false, Option, none, some, List, Text, slot, modify_slot, if◌then◌else◌,
}
use open_ocpp_simu.Ocpp.{ChargePointStatus, available, reserved, faulted}
use open_ocpp_simu.Handler.{Handler}
use open_ocpp_simu.Sim.World.{Connector}

pub data AvailabilityType : Type 0 where
  operative inoperative : AvailabilityType

pub data AvailabilityStatus : Type 0 where
  accepted scheduled : AvailabilityStatus

-- The statuses in which a connector is taken out of service at once.
abbrev pub is_idle : ChargePointStatus → Bool
is_idle available = true
is_idle reserved = true
is_idle faulted = true
is_idle _ = false

module _ {F : Type 0} where
  -- The request for one connector, by its status.
  unfoldable pub change_one : AvailabilityType → Connector F → AvailabilityStatus × Connector F
  change_one inoperative c =
      if is_idle c.status
      then (accepted, c)
      else (scheduled, record c { unavailable_pending = true })
  change_one operative c = (accepted, record c { unavailable_pending = false })

  unfoldable pub change_availability_requested :
      ℕ → AvailabilityType → List (Connector F) → Option (AvailabilityStatus × List (Connector F))
  change_availability_requested zero availability cs = some (accepted, cs)
  change_availability_requested (suc i) availability cs = elim (slot cs (suc i)) [
    | none ↦ none
    | some c ↦
        Option.map (λ ds. ((change_one availability c).0, ds))
          (modify_slot cs (suc i) (λ d. (change_one availability d).1))
  ]

-- The two writes of a remote start.
unfoldable pub flag_remote_start : ℕ → Text → Handler → Option Handler
flag_remote_start id tag h = elim (modify_slot h.remote_start_pending id (λ _. true)) [
  | none ↦ none
  | some ps ↦
      Option.map (λ ts. record h { remote_start_pending = ps; remote_start_id_tags = ts })
        (modify_slot h.remote_start_id_tags id (λ _. tag))
]

-- The loop over the connectors from the number `i` on, of which `n` are left.
unfoldable pub start_first :
    (ℕ → ChargePointStatus)
    → (ChargePointStatus → Bool)
    → Text
    → ℕ
    → ℕ
    → Handler
    → Option (Handler × Bool)
start_first status before_charging tag i zero h = some (h, false)
start_first status before_charging tag i (suc n) h =
    let rest = start_first status before_charging tag (suc i) n h in
    if before_charging (status i)
    then Option.map (λ g. (g, true)) (flag_remote_start i tag h)
    else rest

unfoldable pub remote_start_transaction_requested :
    (ℕ → ChargePointStatus)
    → (ChargePointStatus → Bool)
    → ℕ
    → ℕ
    → Text
    → Handler
    → Option (Handler × Bool)
remote_start_transaction_requested status before_charging number_of_connectors zero tag h =
    start_first status before_charging tag 1 number_of_connectors h
remote_start_transaction_requested status before_charging number_of_connectors (suc i) tag h =
    Option.map (λ g. (g, true)) (flag_remote_start (suc i) tag h)

unfoldable pub remote_stop_transaction_requested : ℕ → Handler → Option (Handler × Bool)
remote_stop_transaction_requested id h =
    Option.map (λ ps. (record h { remote_stop_pending = ps }, true))
      (modify_slot h.remote_stop_pending id (λ _. true))
