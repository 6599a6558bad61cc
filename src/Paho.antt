-- ===== src/Paho.antt =====
-- src/mqtt_client/private/PahoMqttClient.cpp: the MQTT client. The Paho library is a parameter: its
-- answers are functions of the calls made so far. `m_client` is the handle that the library creates.
pub mod Library
pub mod Requests
pub mod Resources
pub mod Callbacks
use open_ocpp_simu.Common.{
  ℕ, Bool, true, false, Option, none, some, List, [], ◌∷◌, Text, if◌then◌else◌,
}
use open_ocpp_simu.Paho.Library.{QoS, Will, LibCall, LibCalls, PahoLib}

pub record PahoClient : Type 0 where
  pub id : Text
  pub url : Text
  pub client : Option ℕ
  pub pub_timeout : ℕ
  pub will : Option Will
  pub calls : LibCalls

unfoldable pub new_client : Text → PahoClient
new_client id = record {
  id = id;
  url = [];
  client = none;
  pub_timeout = 1;
  will = none;
  calls = [];
}

unfoldable pub set_will : Will → PahoClient → Bool × PahoClient
set_will will c = elim c.client [
  | none ↦ (true, record c { will = some will })
  | some h ↦ (false, c)
]

unfoldable pub close : PahoClient → Bool × PahoClient
close c = elim c.client [
  | none ↦ (false, c)
  | some h ↦ (
    true,
    record c {
      url = [];
      client = none;
      calls = LibCall.destroy h ∷ LibCall.disconnect h 1000 ∷ c.calls;
    },
  )
]

-- The calls before `MQTTClient_connect`, and that call.
abbrev pub connect_calls : PahoClient → ℕ → Text → Bool → ℕ → ℕ → LibCalls
connect_calls c h url clean_session timeout keep_alive =
    LibCall.connect h clean_session timeout keep_alive c.will
    ∷ LibCall.set_callbacks h
    ∷ LibCall.created h url c.id
    ∷ c.calls

unfoldable pub connect : PahoLib → Text → Bool → ℕ → ℕ → PahoClient → Bool × PahoClient
connect lib url clean_session timeout keep_alive c = elim c.client [
  | some h ↦ (false, c)
  | none ↦ elim (lib.creates c.calls) [
    | none ↦ (false, record c { calls = LibCall.not_created url c.id ∷ c.calls })
    | some h ↦
        let calls = connect_calls c h url clean_session timeout keep_alive in
        if lib.connects calls
        then (true, record c { url = url; client = some h; calls = calls })
        else (false, (close (record c { client = some h; calls = calls })).1)
  ]
]

unfoldable pub publish : PahoLib → Text → Text → QoS → Bool → PahoClient → Bool × PahoClient
publish lib topic message qos retained c = elim c.client [
  | none ↦ (false, c)
  | some h ↦
      let sent = LibCall.publish h topic message qos retained ∷ c.calls in
      elim (lib.publishes sent) [
        | none ↦ (false, record c { calls = sent })
        | some token ↦
            let waited = LibCall.wait_for_completion h token c.pub_timeout ∷ sent in
            (lib.completes waited, record c { calls = waited })
      ]
]

unfoldable pub subscribe : PahoLib → Text → QoS → PahoClient → Bool × PahoClient
subscribe lib topic qos c = elim c.client [
  | none ↦ (false, c)
  | some h ↦
      let calls = LibCall.subscribe h topic qos ∷ c.calls in
      (lib.subscribes calls, record c { calls = calls })
]

unfoldable pub unsubscribe : PahoLib → Text → PahoClient → Bool × PahoClient
unsubscribe lib topic c = elim c.client [
  | none ↦ (false, c)
  | some h ↦
      let calls = LibCall.unsubscribe h topic ∷ c.calls in
      (lib.unsubscribes calls, record c { calls = calls })
]

unfoldable pub is_connected : PahoLib → PahoClient → Bool × PahoClient
is_connected lib c = elim c.client [
  | none ↦ (false, c)
  | some h ↦
      let calls = LibCall.is_connected h ∷ c.calls in
      (lib.connected calls, record c { calls = calls })
]
