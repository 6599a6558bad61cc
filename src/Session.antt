-- ===== src/Session.antt =====
-- src/chargepoint/mqtt/MqttManager.cpp, `start`, and src/launcher/main.cpp, from the MQTT client on: the
-- connection loops of the two programs. The calls of the other threads on the client are not modelled.
pub mod Ready
pub mod Runs
pub mod Ends
pub mod Publishing
pub mod Addresses
pub mod Tracked
pub mod Presented
use open_ocpp_simu.Common.{
  ℕ, zero, suc, ◌+◌, Bool, true, false, not, ◌&&◌, Option, none, some, List, [], ◌∷◌, ◌++◌, Text,
  codes, if◌then◌else◌,
}
use open_ocpp_simu.Paho.Library.{QoS, qos_0, Will, PahoLib}
use open_ocpp_simu.Paho.{PahoClient, new_client}
use open_ocpp_simu.Paho

-- What a program gives the loop: the client's identifier, the message for its end, the broker, the topics in the order of
-- the subscriptions, and the message that it publishes then, if any.
pub record Plan : Type 0 where
  pub client_id : Text
  pub status_topic : Text
  pub dead : Text
  pub broker_url : Text
  pub topics : List Text
  pub alive : Option Text

-- `dead_message` is what `buildStatusMessage` makes.
unfoldable pub charge_point_plan : Text → Text → Text → Plan
charge_point_plan charge_point_id broker_url dead_message =
    let topic = codes "cp_simu/cps/" ++ (charge_point_id ++ codes "/") in
    record {
      client_id = charge_point_id;
      status_topic = topic ++ codes "status";
      dead = dead_message;
      broker_url = broker_url;
      topics =
          (topic ++ codes "cmd")
          ∷ (topic ++ codes "connectors/+/car")
          ∷ (topic ++ codes "connectors/+/id_tag")
          ∷ (topic ++ codes "connectors/+/faulted")
          ∷ [];
      alive = none;
    }

unfoldable pub launcher_plan : Text → Plan
launcher_plan broker_url = record {
  client_id = codes "OCPP charge point simulator launcher";
  status_topic = codes "cp_simu/launcher/status";
  dead = codes "Dead";
  broker_url = broker_url;
  topics = codes "cp_simu/cps/+/status" ∷ codes "cp_simu/launcher/cmd" ∷ [];
  alive = some (codes "Alive");
}

-- The client, and how often the loop has read whether the application ends.
pub record Session : Type 0 where
  pub client : PahoClient
  pub reads : ℕ

-- `setWill` on a new client
unfoldable pub with_will : Plan → PahoClient → PahoClient
with_will plan c =
    (Paho.set_will
      (record { topic = plan.status_topic; message = plan.dead; qos = qos_0; retained = true }) c).1

abbrev pub initial : Plan → Session
initial plan = record { client = with_will plan (new_client plan.client_id); reads = 0 }

-- `ended n` is the answer to the read number `n` of the end of the application, which the listener sets in another thread.
module _ (lib : PahoLib) (ended : ℕ → Bool) where
  abbrev pub call : (PahoClient → Bool × PahoClient) → Session → Bool × Session
  call f s = let r = f s.client in (r.0, record s { client = r.1 })

  -- Subscriptions one after the other, up to one that fails.
  unfoldable pub subscribe_all : List Text → Session → Bool × Session
  subscribe_all [] s = (true, s)
  subscribe_all (t ∷ ts) s =
      let r = call (Paho.subscribe lib t qos_0) s in
      let rest = subscribe_all ts r.1 in if r.0 then rest else r

  unfoldable pub publish_status : Plan → Text → Session → Session
  publish_status plan message s = (call (Paho.publish lib plan.status_topic message qos_0 true) s).1

  abbrev pub publish_alive : Plan → Option Text → Session → Session
  publish_alive plan none s = s
  publish_alive plan (some message) s = publish_status plan message s

  -- The wait for a disconnection or for the end, `none` if the fuel runs out.
  unfoldable pub wait_loop : ℕ → Session → Option Session
  wait_loop zero s = none
  wait_loop (suc fuel) s =
      let t = record s { reads = suc s.reads } in
      let r = call (Paho.is_connected lib) t in
      let rest = wait_loop fuel r.1 in
      if not (ended s.reads) then (if r.0 then rest else some r.1) else some t

  -- The call after the wait, whose answer is logged.
  abbrev pub log_connection : Option Session → Option Session
  log_connection none = none
  log_connection (some t) = some (call (Paho.is_connected lib) t).1

  -- The attempt to connect, with the wait when it succeeds.
  unfoldable pub attempt : ℕ → Plan → Session → Option Session
  attempt fuel plan s =
      let c = call (Paho.connect lib plan.broker_url true 1 10) s in
      if c.0
      then (let b = subscribe_all plan.topics c.1 in
          if b.0
          then log_connection (wait_loop fuel (publish_alive plan plan.alive b.1))
          else some b.1)
      else some c.1

  -- The delay before the next attempt, or the status of the end.
  unfoldable pub after_attempt : Plan → Session → Session
  after_attempt plan s =
      let t = record s { reads = suc s.reads } in
      if not (ended s.reads) then (call Paho.close t).1 else publish_status plan plan.dead t

  -- The connection loop.
  unfoldable pub connection_loop : ℕ → Plan → Session → Option Session
  connection_loop zero plan s = none
  connection_loop (suc fuel) plan s = elim (attempt (suc fuel) plan s) [
    | none ↦ none
    | some t ↦
        let u = after_attempt plan t in
        let v = record u { reads = suc u.reads } in
        let rest = connection_loop fuel plan v in if not (ended u.reads) then rest else some v
  ]

  -- From the creation of the client to its destructor, which closes it.
  unfoldable pub run_session : ℕ → Plan → Option PahoClient
  run_session fuel plan = elim (connection_loop fuel plan (initial plan)) [
    | none ↦ none
    | some s ↦ some (Paho.close s.client).1
  ]

-- `start` of the MQTT manager, and the launcher from the client on.
module _ (lib : PahoLib) (ended : ℕ → Bool) where
  unfoldable pub charge_point_session : ℕ → Text → Text → Text → Option PahoClient
  charge_point_session fuel charge_point_id broker_url dead_message =
      run_session lib ended fuel (charge_point_plan charge_point_id broker_url dead_message)

  unfoldable pub launcher_session : ℕ → Text → Option PahoClient
  launcher_session fuel broker_url = run_session lib ended fuel (launcher_plan broker_url)
