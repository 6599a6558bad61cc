-- ===== src/Tests/Remote.antt =====
-- The MQTT client and the requests of the central system at concrete inputs.
use mathlib.Core.Logic.{◌↔◌}
use open_ocpp_simu.Common.{
  ℕ, ◌≡◌, ◌≢◌, Bool, true, false, none, some, List, [], ◌∷◌, arith, codes, get_elem?,
}
use open_ocpp_simu.Ocpp.{available, charging, ChargePointStatus}
use open_ocpp_simu.Float.{Hundredths, hundredths}
use open_ocpp_simu.Paho.{new_client, close}
use open_ocpp_simu.Paho.Library.{PahoLib, qos_0}
use open_ocpp_simu.Paho.Requests.{Request, perform_all}
use open_ocpp_simu.Paho.Resources.{IsClean, handle, perform_all-IsClean, close-perform_all}
use open_ocpp_simu.Handler.{Handler, is_remote_stop_pending}
use open_ocpp_simu.Handler.Requests.{
  remote_start_transaction_requested, remote_stop_transaction_requested,
}
use open_ocpp_simu.Handler.Pending.{
  Chosen, Started, remote_start-any, remote_start-one, remote_stop_lem,
}
use open_ocpp_simu.Handler.Measures.{
  current_import, voltage, Printed, measure, values, measure-within, measure-out_of_bounds,
}
use open_ocpp_simu.Tests.Data.{tag, meter, connector, handler}

-- Everything succeeds, with handle 5.
abbrev pub lib : PahoLib
lib = record {
  creates = λ calls. some 5;
  connects = λ calls. true;
  publishes = λ calls. some 1;
  completes = λ calls. true;
  subscribes = λ calls. true;
  unsubscribes = λ calls. true;
  connected = λ calls. true;
}

abbrev requests : List Request
requests =
    Request.connect (codes "tcp://broker") true 1 10
    ∷ Request.subscribe (codes "cmd") qos_0
    ∷ Request.publish (codes "status") (codes "{}") qos_0 true
    ∷ Request.close
    ∷ Request.connect (codes "tcp://broker") true 1 10
    ∷ []

perform_all-IsClean_example : IsClean (perform_all lib requests (new_client tag))
perform_all-IsClean_example = perform_all-IsClean lib requests tag

close-perform_all_example :
    let c = perform_all lib requests (new_client tag) in
    let r = close c in
    (handle r.1.calls ≡ some none) × (r.1.client ≡ none) × ((r.0 ≡ false) ↔ (c.client ≡ none))
close-perform_all_example = close-perform_all lib requests tag

-- The statuses before `Charging`, as far as the example goes.
abbrev before_charging : ChargePointStatus → Bool
before_charging available = true
before_charging _ = false

remote_start-any_example :
    (g : Handler) × (found : Bool) × (remote_start_transaction_requested
        (λ id. available)
        before_charging
        1
        0
        tag
        handler
      ≡ some (g, found))
    × Chosen (λ id. available) before_charging tag 1 1 handler g found
remote_start-any_example =
    remote_start-any (λ id. available) before_charging tag 1 handler
      λ k a b. (omega arith, omega arith)

remote_start-one_example :
    (g : Handler) × (remote_start_transaction_requested
        (λ id. charging)
        before_charging
        1
        1
        tag
        handler
      ≡ some (g, true))
    × Started 1 tag handler g
remote_start-one_example =
    remote_start-one (λ id. charging) before_charging tag 1 1 handler (ground arith)

remote_stop_lem_example :
    (g : Handler) × (remote_stop_transaction_requested 1 handler ≡ some (g, true))
    × (is_remote_stop_pending g 1 ≡ some true)
    × ((other : ℕ)
        → 1 ≢ other
        → is_remote_stop_pending g other ≡ is_remote_stop_pending handler other)
    × (remote_stop_transaction_requested 0 handler ≡ none)
remote_stop_lem_example = remote_stop_lem 1 handler (omega arith)

measure-within_example :
    (x : Hundredths) × (get_elem? (values voltage meter) 0 ≡ some x)
    × (measure voltage (some 0) (connector charging)
        ≡ some (true, record { value = Printed.float x; phase = some 0 } ∷ []))
measure-within_example =
    measure-within voltage 0 (connector charging) tt (ground arith) (omega arith)

measure-out_of_bounds_example : measure current_import (some 1) (connector charging) ≡ none
measure-out_of_bounds_example =
    measure-out_of_bounds current_import (connector charging) tt (ground arith)
