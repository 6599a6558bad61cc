-- ===== src/Paho/Requests.antt =====
-- The calls of the client's interface, and what a sequence of them does.
use open_ocpp_simu.Common.{ℕ, Bool, List, [], ◌∷◌, Text}
use open_ocpp_simu.Paho.Library.{QoS, Will, PahoLib}
use open_ocpp_simu.Paho.{PahoClient}
use open_ocpp_simu.Paho

-- A call of the interface of the client.
pub data Request : Type 0 where
  set_will : Will → Request
  connect : Text → Bool → ℕ → ℕ → Request
  publish : Text → Text → QoS → Bool → Request
  subscribe : Text → QoS → Request
  unsubscribe : Text → Request
  close is_connected : Request

abbrev pub perform : PahoLib → Request → PahoClient → Bool × PahoClient
perform lib (Request.set_will w) c = Paho.set_will w c
perform lib (Request.connect url clean timeout keep) c = Paho.connect lib url clean timeout keep c
perform lib (Request.publish topic message qos retained) c =
    Paho.publish lib topic message qos retained c
perform lib (Request.subscribe topic qos) c = Paho.subscribe lib topic qos c
perform lib (Request.unsubscribe topic) c = Paho.unsubscribe lib topic c
perform lib Request.close c = Paho.close c
perform lib Request.is_connected c = Paho.is_connected lib c

abbrev pub perform_all : PahoLib → List Request → PahoClient → PahoClient
perform_all lib [] c = c
perform_all lib (r ∷ rs) c = perform_all lib rs (perform lib r c).1
