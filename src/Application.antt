-- ===== src/Application.antt =====
-- `start` and `loop` of src/chargepoint/SimulatedChargePoint.cpp as a whole: the control loop with its status reports,
-- the data that it publishes and its sleeps, and the restart after a reset. What the other threads do is a function
-- of the number of sleeps so far. `none` is an access out of bounds, a use of `m_mqtt` while it points
-- to no client, or the end of the fuel.
pub mod Follows
pub mod Ends
use mathlib.Core.Option
use open_ocpp_simu.Common.{
  ℕ, zero, suc, Bool, true, false, Option, none, some, List, ◌∷◌, Text, if◌then◌else◌,
}
use open_ocpp_simu.Ocpp.{ChargePointStatus, RegistrationStatus, StackCall, Stack}
use open_ocpp_simu.Float.{FloatOps}
use open_ocpp_simu.Connector.{ConnectorType}
use open_ocpp_simu.Handler.{is_connected, is_reset_pending, clear_reset_pending}
use open_ocpp_simu.Paho.Library.{PahoLib}
use open_ocpp_simu.Paho.{PahoClient}
use open_ocpp_simu.Session.Publishing.{Members, publish_data, publish_status_message}
use open_ocpp_simu.Sim.World.{World}
use open_ocpp_simu.Sim.Loop.{
  LoopVars, new_loop_vars, report_status, is_over, keeps_waiting, operate,
}
use open_ocpp_simu.System.{System, start_system}

-- What the control loop is given. `status_message` is what `buildStatusMessage` makes of a status.
pub record Site (F : Type 0) : Type 0 where
  pub status_topic : Text
  pub connectors_topic : Text
  pub status_name : ChargePointStatus → Text
  pub status_message : Option RegistrationStatus → Text
  pub max_charge_point_setpoint : F

-- What the other threads do during a sleep, to what they share and to the MQTT client, and whether
-- `m_mqtt` points to a client after a number of sleeps: it is null until the thread of the MQTT manager
-- has created the client, which that thread deletes at its end.
pub record Others (F : Type 0) : Type 0 where
  pub threads : ℕ → System F → System F
  pub client_calls : ℕ → PahoClient → PahoClient
  pub has_client : ℕ → Bool

-- The state of the thread of the control loop.
pub record Running (F : Type 0) : Type 0 where
  pub system : System F
  pub client : PahoClient
  pub vars : LoopVars
  pub sleeps : ℕ

module _ {F : Type 0} where
  -- A call of `getRegistrationStatus`.
  abbrev pub ask_status : System F → System F
  ask_status st = record st {
    world = record st.world { calls = StackCall.get_registration_status ∷ st.world.calls };
  }

  -- The status is asked for only if neither flag is set.
  abbrev pub after_condition : System F → System F
  after_condition st = if is_over st.world then st else ask_status st

  -- From the creation of a charge point on: the pending reset is cleared, and `loop` has new variables.
  abbrev pub begin : Running F → Running F
  begin r = record r {
    system = record r.system {
      world = record r.system.world { handler = clear_reset_pending r.system.world.handler };
    };
    vars = new_loop_vars;
  }

-- What `start` begins with.
abbrev pub new_running :
    {F : Type 0} ⦃f : FloatOps F⦄ → ConnectorType → ℕ → ℕ → F → F → F → PahoClient → Running F
new_running type nb_phases nb_connectors max_setpoint voltage pf client = record {
  system = start_system type nb_phases nb_connectors max_setpoint voltage pf;
  client = client;
  vars = new_loop_vars;
  sleeps = 0;
}

module _ {F : Type 0} (others : Others F) where
  unfoldable pub sleep : Running F → Running F
  sleep r = record r {
    system = others.threads r.sleeps r.system;
    client = others.client_calls r.sleeps r.client;
    sleeps = suc r.sleeps;
  }

  -- The sleep after the loop that a reset ended.
  unfoldable pub end_loop : Running F → Running F
  end_loop r = if is_reset_pending r.system.world.handler then sleep r else r

module _ {F : Type 0} (lib : PahoLib) (write : Members F → Text) (site : Site F)
    (others : Others F) where
  -- `mqtt.publishData(connectors)`
  unfoldable pub publish_connectors_data : Running F → Option (Running F)
  publish_connectors_data r =
      if others.has_client r.sleeps
      then Option.map (λ c. record r { client = c })
          (publish_data lib write site.status_name site.connectors_topic r.system.connectors
            r.client)
      else none

  module _ (stack : Stack F) where
    -- The status part, with the call of `publishStatus` when the status is not published yet.
    unfoldable pub report : Running F → Option (Running F)
    report r =
        let w = r.system.world in
        let publish_answer = λ (st : Option RegistrationStatus).
          publish_status_message lib write site.status_topic (site.status_message st) r.client in
        let q =
          report_status (λ st. (publish_answer st).0) (is_connected w.handler)
            (stack.registration_status w.calls) r.vars in
        let asked = record r { system = ask_status r.system; vars = q.1 } in
        elim q.0 [
          | none ↦ some asked
          | some st ↦
              if others.has_client r.sleeps
              then some (record asked { client = (publish_answer st).1 })
              else none
        ]

    module _ ⦃f : FloatOps F⦄ where
      -- The wait for the registration.
      unfoldable pub wait_registration : ℕ → Running F → Option (Running F)
      wait_registration zero r = none
      wait_registration (suc fuel) r = elim (keeps_waiting stack r.system.world) [
        | false ↦ some (record r { system = after_condition r.system })
        | true ↦ elim (report (record r { system = after_condition r.system })) [
          | none ↦ none
          | some p ↦ elim (publish_connectors_data p) [
            | none ↦ none
            | some q ↦ wait_registration fuel (sleep others q)
          ]
        ]
      ]

      -- The part of an iteration after the report of the status.
      unfoldable pub operate_and_publish : Running F → Option (Running F)
      operate_and_publish r =
          elim (operate site.max_charge_point_setpoint stack r.system.connectors r.system.world) [
            | none ↦ none
            | some (cs, w) ↦ Option.map (sleep others) (
                publish_connectors_data
                  (record r { system = record { connectors = cs; world = w } }))
          ]

      -- One iteration of `loop`.
      unfoldable pub iteration : ℕ → Running F → Option (Running F)
      iteration fuel r = elim (wait_registration fuel r) [
        | none ↦ none
        | some q ↦ elim (report q) [ none ↦ none | some p ↦ operate_and_publish p ]
      ]

      -- The do-while loop of `loop`.
      unfoldable pub iterations : ℕ → Running F → Option (Running F)
      iterations zero r = none
      iterations (suc fuel) r = elim (iteration fuel r) [
        | none ↦ none
        | some q ↦ elim (is_over q.system.world) [ true ↦ some q | false ↦ iterations fuel q ]
      ]

      -- The do-while loop of `start`.
      unfoldable pub run_charge_points : ℕ → Running F → Option (Running F)
      run_charge_points zero r = none
      run_charge_points (suc fuel) r = elim (iterations fuel (begin r)) [
        | none ↦ none
        | some q ↦ elim (is_reset_pending (end_loop others q).system.world.handler) [
          | true ↦ run_charge_points fuel (end_loop others q)
          | false ↦ some (end_loop others q)
        ]
      ]
