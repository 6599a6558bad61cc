-- ===== src/Mqtt.antt =====
-- src/chargepoint/mqtt/MqttManager.cpp: the car data and the presented id tags, by connector.
-- An access outside `m_connectors` is `none`. The mutex makes each method one step.
pub mod Topics
pub mod Messages
pub mod Reception
use mathlib.Core.Option
use open_ocpp_simu.Common.{
  ℕ, Bool, true, false, not, Option, none, some, List, [], ◌∷◌, Text, is_empty, slot, modify_slot,
  replicate,
}
use open_ocpp_simu.Connector.{ConnectorData, new_connector}
use open_ocpp_simu.Float.{FloatOps}

pub record Mqtt (F : Type 0) : Type 0 where
  pub ended : Bool
  pub connectors : List (ConnectorData F (Unit {0}))

unfoldable pub new_mqtt : {F : Type 0} ⦃f : FloatOps F⦄ → ℕ → Mqtt F
unfolding new_connector
new_mqtt nb_connectors = record {
  ended = false;
  connectors = replicate nb_connectors (new_connector tt);
}

module _ {F : Type 0} where
  unfoldable pub is_end_of_application : Mqtt F → Bool
  is_end_of_application m = m.ended

  unfoldable pub is_id_tag_pending : Mqtt F → ℕ → Option Bool
  is_id_tag_pending m id = Option.map (λ c. not (is_empty c.id_tag)) (slot m.connectors id)

  unfoldable pub reset_id_tag_pending : Mqtt F → ℕ → Option (Mqtt F)
  reset_id_tag_pending m id =
      Option.map (λ cs. record m { connectors = cs })
        (modify_slot m.connectors id (λ c. record c { id_tag = [] }))

  unfoldable pub pending_id_tag : Mqtt F → ℕ → Option Text
  pending_id_tag m id = Option.map (λ c. c.id_tag) (slot m.connectors id)

  -- The body of the loop of `updateData`.
  unfoldable pub copy_car_data :
      {M : Type 0} → ConnectorData F (Unit {0}) → ConnectorData F M → ConnectorData F M
  copy_car_data from c = record c {
    car_cable_capacity = from.car_cable_capacity;
    car_ready = from.car_ready;
    car_consumption_l1 = from.car_consumption_l1;
    car_consumption_l2 = from.car_consumption_l2;
    car_consumption_l3 = from.car_consumption_l3;
    fault_pending = from.fault_pending;
  }

  unfoldable pub update_data :
      {M : Type 0} → Mqtt F → List (ConnectorData F M) → Option (List (ConnectorData F M))
  update_data m [] = some []
  update_data m (c ∷ cs) = elim (slot m.connectors c.id) [
    | none ↦ none
    | some from ↦ Option.map (λ rest. copy_car_data from c ∷ rest) (update_data m cs)
  ]
