-- ===== src/Mqtt/Messages.antt =====
-- `mqttMessageReceived`. The JSON library is a parameter: what it answers for a message is a
-- `Document`. `none` is a call that its documentation forbids (`HasMember` of what is no object,
-- `GetString` of what is no string) or a step before the first element of the topic.
use mathlib.Core.Option
use open_ocpp_simu.Common.{
  ℕ, ltb, leb, Bool, true, false, not, ◌&&◌, Option, none, some, Text, codes, text_eq, length,
  modify_slot, if◌then◌else◌,
}
use open_ocpp_simu.Connector.{ConnectorData}
use open_ocpp_simu.Mqtt.{Mqtt}
use open_ocpp_simu.Mqtt.Topics.{filename, elements, before_last, atoi_u32}

-- A JSON value: `GetFloat`, `GetBool` and `GetString` where `IsFloat`, `IsBool` and `IsString` hold.
pub record Value (F : Type 0) : Type 0 where
  pub float : Option F
  pub bool : Option Bool
  pub string : Option Text

pub record Document (F : Type 0) : Type 0 where
  pub is_object : Bool
  pub member : Text → Option (Value F)

-- A member that is there and has the type asked for.
abbrev pub typed : {F A : Type 0} → (Value F → Option A) → Option (Value F) → Option A
typed get none = none
typed get (some v) = get v

abbrev pub or_else : {A : Type 0} → Option A → A → A
or_else none a = a
or_else (some b) a = b

-- The names of the topics of a connector.
abbrev pub is_connector_topic : Text → Bool
is_connector_topic name =
    if text_eq name (codes "car")
    then true
    else if text_eq name (codes "id_tag")
    then true
    else text_eq name (codes "faulted")

module _ {F : Type 0} where
  unfoldable pub receive_car : Document F → ConnectorData F (Unit {0}) → ConnectorData F (Unit {0})
  receive_car doc c = record c {
    car_cable_capacity =
        or_else (typed (λ v. v.float) (doc.member (codes "cable"))) c.car_cable_capacity;
    car_ready = or_else (typed (λ v. v.bool) (doc.member (codes "ready"))) c.car_ready;
    car_consumption_l1 =
        or_else (typed (λ v. v.float) (doc.member (codes "consumption_l1"))) c.car_consumption_l1;
    car_consumption_l2 =
        or_else (typed (λ v. v.float) (doc.member (codes "consumption_l2"))) c.car_consumption_l2;
    car_consumption_l3 =
        or_else (typed (λ v. v.float) (doc.member (codes "consumption_l3"))) c.car_consumption_l3;
  }

  unfoldable pub receive_id_tag :
      Document F → ConnectorData F (Unit {0}) → ConnectorData F (Unit {0})
  receive_id_tag doc c = record c {
    id_tag = or_else (typed (λ v. v.string) (doc.member (codes "id"))) c.id_tag;
  }

  unfoldable pub receive_faulted :
      Document F → ConnectorData F (Unit {0}) → ConnectorData F (Unit {0})
  receive_faulted doc c = record c {
    fault_pending = or_else (typed (λ v. v.bool) (doc.member (codes "faulted"))) c.fault_pending;
  }

  unfoldable pub receive_data :
      Text → Document F → ConnectorData F (Unit {0}) → ConnectorData F (Unit {0})
  receive_data name doc c =
      if text_eq name (codes "car")
      then receive_car doc c
      else if text_eq name (codes "id_tag")
      then receive_id_tag doc c
      else if text_eq name (codes "faulted")
      then receive_faulted doc c
      else c

  -- The branch of the other topics, with the number of the connector.
  unfoldable pub receive_connector : ℕ → Text → Document F → Mqtt F → Option (Mqtt F)
  receive_connector connector name doc m =
      if ltb 0 connector && leb connector (length m.connectors)
      then (if is_connector_topic name && not doc.is_object
          then none
          else Option.map (λ cs. record m { connectors = cs })
              (modify_slot m.connectors connector (receive_data name doc)))
      else some m

  -- The branch of a command. The second result tells whether `publishOcppConfig` is called.
  unfoldable pub receive_command : Document F → Mqtt F → Option (Mqtt F × Bool)
  receive_command doc m =
      if doc.is_object
      then elim (doc.member (codes "type")) [
        | none ↦ some (m, false)
        | some v ↦ elim v.string [
          | none ↦ none
          | some type ↦
              if text_eq type (codes "close")
              then some (record m { ended = true }, false)
              else some (m, text_eq type (codes "ocpp_config"))
        ]
      ]
      else none

  unfoldable pub message_received :
      (Text → Option (Document F)) → Text → Text → Mqtt F → Option (Mqtt F × Bool)
  message_received parse topic message m = elim (parse message) [
    | none ↦ some (m, false)
    | some doc ↦
        if text_eq (filename topic) (codes "cmd")
        then receive_command doc m
        else elim (before_last (elements topic)) [
          | none ↦ none
          | some name ↦
              Option.map (λ v. (v, false))
                (receive_connector (atoi_u32 name) (filename topic) doc m)
        ]
  ]
