-- ===== src/Session/Ready.antt =====
-- The will of every connection.
use open_ocpp_simu.Common.{◌≡◌, refl, true, some, All, arith}
use open_ocpp_simu.Paho.Library.{LibCall, Will, qos_0, PahoLib}
use open_ocpp_simu.Paho.{
  PahoClient, new_client, set_will, close, connect, publish, subscribe, unsubscribe, is_connected,
}
use open_ocpp_simu.Paho.Requests.{Request, perform}
use open_ocpp_simu.Paho.Resources.{IsClean, perform-IsClean}
use open_ocpp_simu.Session.{Plan, with_will}

-- A call of the library that connects has this will.
abbrev pub IsWilled : Will → LibCall → Type 0
IsWilled w (LibCall.created h url id) = Unit
IsWilled w (LibCall.not_created url id) = Unit
IsWilled w (LibCall.set_callbacks h) = Unit
IsWilled w (LibCall.connect h clean timeout keep will) = will ≡ some w
IsWilled w (LibCall.publish h topic message qos retained) = Unit
IsWilled w (LibCall.wait_for_completion h token timeout) = Unit
IsWilled w (LibCall.subscribe h topic qos) = Unit
IsWilled w (LibCall.unsubscribe h topic) = Unit
IsWilled w (LibCall.disconnect h timeout) = Unit
IsWilled w (LibCall.destroy h) = Unit
IsWilled w (LibCall.is_connected h) = Unit

abbrev pub will_of : Plan → Will
will_of plan = record {
  topic = plan.status_topic;
  message = plan.dead;
  qos = qos_0;
  retained = true;
}

-- A client with the will, whose calls respect the library and connect with that will only.
abbrev pub IsReady : Will → PahoClient → Type 0
IsReady w c = IsClean c × (c.will ≡ some w) × All (IsWilled w) c.calls

abbrev pub IsNoWill : Request → Type 0
IsNoWill (Request.set_will w) = ⊥
IsNoWill (Request.connect url clean timeout keep) = Unit
IsNoWill (Request.publish topic message qos retained) = Unit
IsNoWill (Request.subscribe topic qos) = Unit
IsNoWill (Request.unsubscribe topic) = Unit
IsNoWill Request.close = Unit
IsNoWill Request.is_connected = Unit

IsWilled-perform :
    (lib : PahoLib) (w : Will) (r : Request) (c : PahoClient)
    → IsNoWill r
    → (c.will ≡ some w) × All (IsWilled w) c.calls
    → ((perform lib r c).1.will ≡ some w) × All (IsWilled w) (perform lib r c).1.calls
unfolding connect publish subscribe unsubscribe close is_connected
IsWilled-perform lib w (Request.set_will v) c n h = elim n [ ]
IsWilled-perform lib w (Request.connect url clean timeout keep) c n h = ground arith
IsWilled-perform lib w (Request.publish topic message qos retained) c n h = ground arith
IsWilled-perform lib w (Request.subscribe topic qos) c n h = ground arith
IsWilled-perform lib w (Request.unsubscribe topic) c n h = ground arith
IsWilled-perform lib w Request.close c n h = ground arith
IsWilled-perform lib w Request.is_connected c n h = ground arith

pub IsReady-perform :
    (lib : PahoLib) (w : Will) (r : Request) (c : PahoClient)
    → IsNoWill r
    → IsReady w c
    → IsReady w (perform lib r c).1
IsReady-perform lib w r c n (a, b, d) =
    let (e, f) = IsWilled-perform lib w r c n (b, d) in (perform-IsClean lib r c a, e, f)

pub IsReady-with_will :
    (plan : Plan) → IsReady (will_of plan) (with_will plan (new_client plan.client_id))
unfolding with_will set_will new_client
IsReady-with_will plan = (record { handle_kept = refl; url_empty = λ _. refl }, refl, tt)
