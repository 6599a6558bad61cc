-- ===== src/Paho/Callbacks.antt =====
-- The callbacks of src/mqtt_client/private/PahoMqttClient.cpp, which the library calls from its own
-- thread. The topic is the text of the C string.
use open_ocpp_simu.Common.{ℕ, ◌==◌, Bool, not, Option, none, some, Text, take}

-- `MQTTClient_message`
pub record Message : Type 0 where
  pub payload : Text
  pub payloadlen : ℕ
  pub qos : ℕ
  pub retained : ℕ

-- `IMqttClient::IListener`. The operations return `none` where they fail, which ends the program: the
-- callbacks are `noexcept`.
pub record Listener (M : Type 0) : Type 0 where
  pub mqtt_connection_lost : M → Option M
  -- topic, message, QoS, retained
  pub mqtt_message_received : Text → Text → ℕ → Bool → M → Option M

-- The context, with the listener that `registerListener` sets.
abbrev pub Context : Type 0 → Type 0
Context M = Option (Option (Listener M))

module _ {M : Type 0} where
  unfoldable pub on_connection_lost : Context M → M → Option M
  on_connection_lost none m = some m
  on_connection_lost (some none) m = some m
  on_connection_lost (some (some listener)) m = listener.mqtt_connection_lost m

  unfoldable pub on_message_received : Context M → Text → Message → M → Option M
  on_message_received none topic message m = some m
  on_message_received (some none) topic message m = some m
  on_message_received (some (some listener)) topic message m =
      listener.mqtt_message_received topic (take message.payloadlen message.payload) message.qos
        (not (message.retained == 0)) m
