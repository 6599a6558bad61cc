-- ===== src/Session/Publishing.antt =====
-- `publishStatus`, `publishData` and `publishOcppConfig` of src/chargepoint/mqtt/MqttManager.cpp. The writer of the JSON
-- library and the names of the statuses are parameters.
use open_ocpp_simu.Common.{
  ℕ, ◌≡◌, refl, ltb, Bool, true, not, Option, none, some, List, [], ◌∷◌, ◌++◌, Text, codes,
  is_empty, get_elem?, get_elem?_total, All, arith, if◌then◌else◌, Bool-cases, inl, inr,
}
use open_ocpp_simu.Ocpp.{ChargePointStatus}
use open_ocpp_simu.Meter.{Meter}
use open_ocpp_simu.Meter.Laws.{IsSized}
use open_ocpp_simu.Config.Requests.{KeyValue, IniFile, get_configuration}
use open_ocpp_simu.Paho.Library.{PahoLib, qos_0}
use open_ocpp_simu.Paho.{PahoClient, is_connected, publish}
use open_ocpp_simu.Paho.Requests.{Request}
use open_ocpp_simu.Paho.Resources.{IsClean, perform-IsClean}
use open_ocpp_simu.Sim.World.{Connector}
use open_ocpp_simu.Startup.Decimal.{to_string}

pub data Json (F : Type 0) : Type 0 where
  string : Text → Json F
  float : F → Json F
  number : ℕ → Json F
  truth : Bool → Json F

abbrev pub Members : Type 0 → Type 0
Members F = List (Text × Json F)

module _ {F : Type 0} where
  -- The consumption of one phase, 0 for a phase that the meter does not have, `none` out of bounds.
  unfoldable pub consumption_of : Meter F → ℕ → Option (Json F)
  consumption_of m i =
      if ltb i m.phases_count
      then elim (get_elem? m.consumptions i) [ none ↦ none | some x ↦ some (float x) ]
      else some (number 0)

  -- The members of the message about a connector, but for the consumptions.
  abbrev pub connector_members : (ChargePointStatus → Text) → Connector F → Members F
  connector_members name c =
      (codes "status", string (name c.status))
      ∷ (codes "id_tag", string c.id_tag)
      ∷ (codes "max_setpoint", float c.max_setpoint)
      ∷ (codes "ocpp_setpoint", float c.ocpp_setpoint)
      ∷ (codes "setpoint", float c.setpoint)
      ∷ (codes "car_consumption_l1", float c.car_consumption_l1)
      ∷ (codes "car_consumption_l2", float c.car_consumption_l2)
      ∷ (codes "car_consumption_l3", float c.car_consumption_l3)
      ∷ (codes "car_cable_capacity", float c.car_cable_capacity)
      ∷ (codes "car_ready", truth c.car_ready)
      ∷ []

  abbrev pub with_consumptions :
      Members F → Option (Json F) → Option (Json F) → Option (Json F) → Option (Members F)
  with_consumptions ms (some l1) (some l2) (some l3) = some (
      ms
      ++ ((codes "consumption_l1", l1)
          ∷ (codes "consumption_l2", l2)
          ∷ (codes "consumption_l3", l3)
          ∷ []))
  with_consumptions ms _ _ _ = none

  unfoldable pub connector_message : (ChargePointStatus → Text) → Connector F → Option (Members F)
  connector_message name c =
      with_consumptions (connector_members name c) (consumption_of c.meter 0)
        (consumption_of c.meter 1) (consumption_of c.meter 2)

  -- `buildStatusMessage` before it is written. The process and the values of `stackConfig` come first.
  abbrev pub status_members :
      (pid : ℕ) (vendor model serial url : Text) (voltage : F)
      → (status : Text) (nb_phases : ℕ) (max_setpoint : F) (chargepoint_type : Text) → Members F
  status_members pid vendor model serial url voltage status nb_phases max_setpoint
        chargepoint_type =
      (codes "pid", number pid)
      ∷ (codes "status", string status)
      ∷ (codes "vendor", string vendor)
      ∷ (codes "model", string model)
      ∷ (codes "serial", string serial)
      ∷ (codes "nb_phases", number nb_phases)
      ∷ (codes "max_setpoint", float max_setpoint)
      ∷ (codes "central_system", string url)
      ∷ (codes "type", string chargepoint_type)
      ∷ (codes "voltage", float voltage)
      ∷ []

  module _ (lib : PahoLib) (write : Members F → Text) where
    -- The loop over the connectors. `topics` is `m_connectors_topic`.
    unfoldable pub publish_connectors :
        (ChargePointStatus → Text) → Text → List (Connector F) → PahoClient → Option PahoClient
    publish_connectors name topics [] client = some client
    publish_connectors name topics (c ∷ cs) client = elim (connector_message name c) [
      | none ↦ none
      | some m ↦
          let topic = topics ++ (to_string c.id ++ codes "/status") in
          publish_connectors name topics cs (publish lib topic (write m) qos_0 true client).1
    ]

    unfoldable pub publish_data :
        (ChargePointStatus → Text) → Text → List (Connector F) → PahoClient → Option PahoClient
    publish_data name topics cs client =
        let r = is_connected lib client in
        if r.0 then publish_connectors name topics cs r.1 else some r.1

    -- `message` is the text of the `status_members`.
    unfoldable pub publish_status_message : Text → Text → PahoClient → Bool × PahoClient
    publish_status_message topic message client =
        let r = is_connected lib client in
        if r.0 then publish lib topic message qos_0 true r.1 else r

    -- The values that are not empty; `unset` is `value()` of a key without a value.
    abbrev pub config_members : Text → List KeyValue → Members F
    config_members unset [] = []
    config_members unset (kv ∷ kvs) =
        let rest = config_members unset kvs in
        let value : Text = elim kv.value [ none ↦ unset | some v ↦ v ] in
        if not (is_empty value) then (kv.key, string value) ∷ rest else rest

    unfoldable pub publish_ocpp_config :
        {S : Type 0} → IniFile S → Text → Text → S → PahoClient → PahoClient
    publish_ocpp_config ini unset topic s client =
        let r = is_connected lib client in
        if r.0
        then (publish lib topic (write (config_members unset (get_configuration ini s []).0)) qos_0
            true r.1).1
        else r.1

    consumption_of_total :
        (m : Meter F) (i : ℕ) → IsSized m → (j : Json F) × (consumption_of m i ≡ some j)
    unfolding consumption_of
    consumption_of_total m i h = elim (Bool-cases (ltb i m.phases_count)) [
      | inr y ↦ (number 0, rw y refl)
      | inl y ↦
          let (x, e) = get_elem?_total m.consumptions i (ground (arith, y, h.consumptions_size)) in
          (float x, rw (y, e) refl)
    ]

    -- While the meters are sized, the data of the connectors is published without an access out of bounds, and the calls
    -- respect the library.
    pub publish_connectors_total :
        (name : ChargePointStatus → Text) (topics : Text) (cs : List (Connector F))
        (client : PahoClient)
        → All (λ c. IsSized c.meter) cs
        → IsClean client
        → (d : PahoClient) × (publish_connectors name topics cs client ≡ some d) × IsClean d
    unfolding publish_connectors connector_message
    publish_connectors_total name topics [] client h k = (client, refl, k)
    publish_connectors_total name topics (c ∷ cs) client h k =
        let (a, ea) = consumption_of_total c.meter 0 h.0 in
        let (b, eb) = consumption_of_total c.meter 1 h.0 in
        let (d, ed) = consumption_of_total c.meter 2 h.0 in
        let m : Members F =
          connector_members name c
          ++ ((codes "consumption_l1", a)
              ∷ (codes "consumption_l2", b)
              ∷ (codes "consumption_l3", d)
              ∷ []) in
        let topic = topics ++ (to_string c.id ++ codes "/status") in
        let k2 = perform-IsClean lib (Request.publish topic (write m) qos_0 true) client k in
        let (x, ex, kx) =
          publish_connectors_total name topics cs (publish lib topic (write m) qos_0 true client).1
            h.1 k2 in
        (x, rw (publish_connectors, connector_message, ea, eb, ed) ex, kx)
