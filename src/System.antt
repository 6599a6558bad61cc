-- ===== src/System.antt =====
-- src/chargepoint/SimulatedChargePoint.cpp, the constructor and `start`: the state in which the control loop begins,
-- and the steps of the loop, of the MQTT thread, of the stack's thread and of the meters' timer, in any order.
pub mod Sizes
pub mod Kept
pub mod Invariants
pub mod Metering
pub mod Races
pub mod Transactions
use mathlib.Core.Option
use open_ocpp_simu.Common.{
  ℕ, zero, suc, Bool, true, false, Option, none, some, List, [], ◌∷◌, Text, ◌≡◌, slot, modify_slot,
  replicate, length,
}
use open_ocpp_simu.Ocpp.{ChargePointStatus, Stack}
use open_ocpp_simu.Float.{FloatOps}
use open_ocpp_simu.Connector.{ConnectorType, ac, dc, new_connector}
use open_ocpp_simu.Meter.{Meter, new_meter, set_voltages, set_power_factor, update}
use open_ocpp_simu.Mqtt
use open_ocpp_simu.Handler
use open_ocpp_simu.Mqtt.{new_mqtt}
use open_ocpp_simu.Mqtt.Messages.{Document, message_received}
use open_ocpp_simu.Handler.{
  new_handler, clear_reset_pending, connection_state_changed, reset_requested,
}
use open_ocpp_simu.Handler.Requests.{
  AvailabilityType, AvailabilityStatus, change_availability_requested,
  remote_start_transaction_requested, remote_stop_transaction_requested,
}
use open_ocpp_simu.Sim.World.{World, Connector}
use open_ocpp_simu.Sim.Loop.{operate}

-- The connectors and what the threads share.
pub record System (F : Type 0) : Type 0 where
  pub connectors : List (Connector F)
  pub world : World F

-- `m_nb_phases` of the constructor
unfoldable pub phases_of : ConnectorType → ℕ → ℕ
phases_of ac nb_phases = nb_phases
phases_of dc nb_phases = 1

module _ {F : Type 0} ⦃f : FloatOps F⦄ where
  -- The meter of a connector before it starts.
  unfoldable pub start_meter : ConnectorType → ℕ → F → F → Meter F
  start_meter type nb_phases operating_voltage power_factor =
      set_power_factor
        (set_voltages (new_meter nb_phases type) (replicate nb_phases operating_voltage))
        power_factor

  -- The loop over the connectors from the index `i` on, of which `left` are left.
  unfoldable pub start_connectors : Meter F → F → ℕ → ℕ → List (Connector F)
  unfolding new_connector
  start_connectors meter max_setpoint i zero = []
  start_connectors meter max_setpoint i (suc left) =
      record (new_connector meter) { id = suc i; max_setpoint = max_setpoint }
      ∷ start_connectors meter max_setpoint (suc i) left

  -- What `start` begins the control loop with.
  unfoldable pub start_system : ConnectorType → ℕ → ℕ → F → F → F → System F
  start_system type nb_phases nb_connectors max_connector_setpoint operating_voltage power_factor =
      record {
        connectors =
            start_connectors
              (start_meter type (phases_of type nb_phases) operating_voltage power_factor)
              max_connector_setpoint 0 nb_connectors;
        world = record {
          calls = [];
          mqtt = new_mqtt nb_connectors;
          handler = clear_reset_pending (new_handler nb_connectors);
        };
      }

  -- The timer's callback for the meter of one connector.
  unfoldable pub update_meter : ℕ → List (Connector F) → Option (List (Connector F))
  update_meter id cs = elim (slot cs id) [
    | none ↦ none
    | some c ↦ elim (update c.meter) [
      | none ↦ none
      | some m ↦ modify_slot cs id (λ d. record d { meter = m })
    ]
  ]

  -- One step of one thread. The answers of the stack and of the JSON library may change from step to step.
  pub data Step : System F → System F → Type 0 where
    iterate :
        (max : F) (s : Stack F) (cs ds : List (Connector F)) (w v : World F)
        → operate max s cs w ≡ some (ds, v)
        → Step (record { connectors = cs; world = w }) (record { connectors = ds; world = v })
    message :
        (parse : Text → Option (Document F)) (topic payload : Text) (m : Mqtt.Mqtt F) (b : Bool)
        (cs : List (Connector F)) (w : World F)
        → message_received parse topic payload w.mqtt ≡ some (m, b)
        → Step
            (record { connectors = cs; world = w })
            (record { connectors = cs; world = record w { mqtt = m } })
    remote_start :
        (status : ℕ → ChargePointStatus) (before : ChargePointStatus → Bool) (id : ℕ) (tag : Text)
        (h : Handler.Handler) (b : Bool) (cs : List (Connector F)) (w : World F)
        → remote_start_transaction_requested status before (length cs) id tag w.handler
          ≡ some (h, b)
        → Step
            (record { connectors = cs; world = w })
            (record { connectors = cs; world = record w { handler = h } })
    remote_stop :
        (id : ℕ) (h : Handler.Handler) (b : Bool) (cs : List (Connector F)) (w : World F)
        → remote_stop_transaction_requested id w.handler ≡ some (h, b)
        → Step
            (record { connectors = cs; world = w })
            (record { connectors = cs; world = record w { handler = h } })
    availability :
        (id : ℕ) (a : AvailabilityType) (r : AvailabilityStatus) (cs ds : List (Connector F))
        (w : World F)
        → change_availability_requested id a cs ≡ some (r, ds)
        → Step (record { connectors = cs; world = w }) (record { connectors = ds; world = w })
    connection :
        (b : Bool) (cs : List (Connector F)) (w : World F)
        → Step
            (record { connectors = cs; world = w })
            (record {
              connectors = cs;
              world = record w { handler = connection_state_changed w.handler b };
            })
    reset :
        (cs : List (Connector F)) (w : World F)
        → Step
            (record { connectors = cs; world = w })
            (record {
              connectors = cs;
              world = record w { handler = (reset_requested w.handler).0 };
            })
    -- the loop of `start` begins again after a reset
    restart :
        (cs : List (Connector F)) (w : World F)
        → Step
            (record { connectors = cs; world = w })
            (record {
              connectors = cs;
              world = record w { handler = clear_reset_pending w.handler };
            })
    measure :
        (id : ℕ) (cs ds : List (Connector F)) (w : World F)
        → update_meter id cs ≡ some ds
        → Step (record { connectors = cs; world = w }) (record { connectors = ds; world = w })

  pub data Reach (a : System F) : System F → Type 0 where
    here : Reach a a
    then_step : (b c : System F) → Reach a b → Step b c → Reach a c
