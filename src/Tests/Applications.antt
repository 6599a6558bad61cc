-- ===== src/Tests/Applications.antt =====
-- The whole program at a concrete input: an AC charge point with two connectors that a message ends.
use open_ocpp_simu.Common.{
  ℕ, ◌≤◌, ◌≡◌, refl, true, false, none, some, List, [], Text, codes, arith, pos, slot, text_eq,
  modify_slot,
}
use open_ocpp_simu.Connector.{ac}
use open_ocpp_simu.Float.{Hundredths, hundredths}
use open_ocpp_simu.Meter.{update}
use open_ocpp_simu.Mqtt.Messages.{Document, message_received}
use open_ocpp_simu.Handler.Answers.{get_tx_start_stop_meter_value}
use open_ocpp_simu.Sim.World.{Connector}
use open_ocpp_simu.System.{
  System, start_system, update_meter, Reach, here, then_step, measure, message,
}
use open_ocpp_simu.System.Metering.{Reach-meter_value}
use open_ocpp_simu.Tests.Data.{stack, connector, tag}
use open_ocpp_simu.Tests.Remote.{lib}
use open_ocpp_simu.Ocpp.{available}
use open_ocpp_simu.Mqtt.Messages.{receive_command}
use open_ocpp_simu.Mqtt.{is_end_of_application}
use open_ocpp_simu.Handler.{is_reset_pending}
use open_ocpp_simu.Paho.{new_client, is_connected}
use open_ocpp_simu.Paho.Requests.{Request}
use open_ocpp_simu.Paho.Resources.{IsClean, perform-IsClean, new_client-IsClean}
use open_ocpp_simu.Session.Publishing.{Members}
use open_ocpp_simu.Sim.Later.{AllLater}
use open_ocpp_simu.Application.{Site, Others, Running, new_running, run_charge_points}
use open_ocpp_simu.Application.Follows.{Behaves}
use open_ocpp_simu.Application.Ends.{start_total}

abbrev started : System Hundredths
started = start_system ac 3 2 (some 3200) (some 23000) (some 100)

-- The connectors after a call of the timer for the second one.
abbrev measured_connectors : List (Connector Hundredths)
measured_connectors = elim (update_meter 2 started.connectors) [ none ↦ [] | some cs ↦ cs ]

abbrev measured : System Hundredths
measured = record { connectors = measured_connectors; world = started.world }

abbrev second : Connector Hundredths
second = elim (slot measured_connectors 2) [ none ↦ connector available | some c ↦ c ]

Reach-meter_value_example :
    (x y : ℕ) × (get_tx_start_stop_meter_value 2 started.connectors ≡ some (pos x))
    × (get_tx_start_stop_meter_value 2 measured_connectors ≡ some (pos y))
    × (x ≤ y)
unfolding start_system update_meter slot open_ocpp_simu.System.start_connectors update
    open_ocpp_simu.Meter.new_powers open_ocpp_simu.System.start_meter
    open_ocpp_simu.Meter.set_power_factor open_ocpp_simu.Meter.set_voltages
    open_ocpp_simu.Meter.new_meter open_ocpp_simu.Meter.products open_ocpp_simu.System.phases_of
    open_ocpp_simu.Meter.energy_mwh modify_slot
Reach-meter_value_example =
    Reach-meter_value ac 3 2 (some 3200) (some 23000) (some 100) started measured 2 second here
      (then_step started measured here
        (measure 2 started.connectors measured_connectors started.world refl))
      refl (omega arith)

-- The application is ended during every sleep.
abbrev close_document : Document Hundredths
close_document = record {
  is_object = true;
  member = λ name. some (record { float = none; bool = none; string = some (codes "close") });
}

abbrev others : Others Hundredths
others = record {
  threads = λ n st. record st {
    world = record st.world { mqtt = record st.world.mqtt { ended = true } };
  };
  client_calls = λ n c. (is_connected lib c).1;
  has_client = λ n. true;
}

others-Behaves : Behaves others 0
unfolding message_received receive_command text_eq open_ocpp_simu.Mqtt.Topics.filename
    open_ocpp_simu.Mqtt.Topics.last_segment open_ocpp_simu.Mqtt.Topics.segments
others-Behaves = record {
  reaches = λ n st. then_step st _ here (
      message (λ t. some close_document) (codes "a/cmd") [] (record st.world.mqtt { ended = true })
        false st.connectors st.world refl);
  clean = λ n c h. perform-IsClean lib Request.is_connected c h;
  there = λ n. refl;
  ends = λ st. refl;
  calm = λ n st l e. e;
  keeps_reset = λ n st e. e;
}

abbrev site : Site Hundredths
site = record {
  status_topic = codes "cp/status";
  connectors_topic = codes "cp/connectors/";
  status_name = λ s. codes "status";
  status_message = λ s. codes "message";
  max_charge_point_setpoint = some 3200;
}

abbrev write : Members Hundredths → Text
write ms = codes "data"

start_total_example :
    let r =
      new_running {F = Hundredths} ac 3 2 (some 3200) (some 23000) (some 100) (new_client tag) in
    (q : Running Hundredths) × (run_charge_points lib write site others stack 5 r ≡ some q)
    × IsClean q.client
    × AllLater r.system.connectors q.system.connectors
    × (is_end_of_application q.system.world.mqtt ≡ true)
    × (is_reset_pending q.system.world.handler ≡ false)
start_total_example =
    start_total 0 lib write site stack others ac 3 2 (some 3200) (some 23000) (some 100)
      (new_client tag) 5 others-Behaves (new_client-IsClean tag) (omega arith)
