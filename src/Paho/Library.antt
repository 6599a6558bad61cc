-- ===== src/Paho/Library.antt =====
-- The Paho library as the client sees it: its calls, and their answers as functions of the calls
-- made so far.
use open_ocpp_simu.Common.{ℕ, Bool, Option, List, Text}

pub data QoS : Type 0 where
  qos_0 qos_1 qos_2 : QoS

pub record Will : Type 0 where
  pub topic : Text
  pub message : Text
  pub qos : QoS
  pub retained : Bool

-- The calls on the library that the client makes.
pub data LibCall : Type 0 where
  -- a successful creation, with the new handle
  created : ℕ → Text → Text → LibCall
  -- a creation that fails
  not_created : Text → Text → LibCall
  set_callbacks : ℕ → LibCall
  -- clean session, connect timeout, keep alive interval and will
  connect : ℕ → Bool → ℕ → ℕ → Option Will → LibCall
  publish : ℕ → Text → Text → QoS → Bool → LibCall
  -- token and timeout
  wait_for_completion : ℕ → ℕ → ℕ → LibCall
  subscribe : ℕ → Text → QoS → LibCall
  unsubscribe : ℕ → Text → LibCall
  disconnect : ℕ → ℕ → LibCall
  destroy : ℕ → LibCall
  is_connected : ℕ → LibCall

-- Newest first.
abbrev pub LibCalls : Type 0
LibCalls = List LibCall

-- The answers, `true` or a value for `MQTTCLIENT_SUCCESS`. A creation that fails sets no handle.
pub record PahoLib : Type 0 where
  pub creates : LibCalls → Option ℕ
  pub connects : LibCalls → Bool
  -- the token
  pub publishes : LibCalls → Option ℕ
  pub completes : LibCalls → Bool
  pub subscribes : LibCalls → Bool
  pub unsubscribes : LibCalls → Bool
  pub connected : LibCalls → Bool
