-- ===== src/Tests/Systems.antt =====
-- The threads together at a concrete input: an AC charge point with two connectors.
use open_ocpp_simu.Common.{◌≡◌, refl, some, List, true, Bool-cases, inl, inr, if◌then◌else◌}
use open_ocpp_simu.Ocpp.{charging, preparing, Stack}
use open_ocpp_simu.Connector.{ac}
use open_ocpp_simu.Float.{Hundredths, hundredths}
use open_ocpp_simu.Handler.{connection_state_changed, reset_requested}
use open_ocpp_simu.Sim.World.{World, Connector}
use open_ocpp_simu.Sim.Loop.{operate}
use open_ocpp_simu.Sim.Later.{ids}
use open_ocpp_simu.System.{System, start_system, Reach, here, then_step, connection, reset, iterate}
use open_ocpp_simu.System.Invariants.{Reach-operate_total}
use open_ocpp_simu.Sim.Transactions.{Alternates, shows_transaction, is_open}
use open_ocpp_simu.Sim.Transactions.Refresh.{IsReflecting}
use open_ocpp_simu.System.Transactions.{Reach-AllConsistent}
use open_ocpp_simu.Tests.Data.{stack}

abbrev started : System Hundredths
started = start_system ac 3 2 (some 3200) (some 23000) (some 100)

-- The charge point connects, then the central system asks for a reset.
abbrev connected : System Hundredths
connected = record {
  connectors = started.connectors;
  world = record started.world { handler = connection_state_changed started.world.handler true };
}

abbrev resetting : System Hundredths
resetting = record {
  connectors = connected.connectors;
  world = record connected.world { handler = (reset_requested connected.world.handler).0 };
}

reached : Reach started resetting
reached =
    then_step connected resetting
      (then_step started connected here (connection true started.connectors started.world))
      (reset connected.connectors connected.world)

Reach-operate_total_example :
    (r : List (Connector Hundredths) × World Hundredths) × (operate
        (some 3200)
        stack
        resetting.connectors
        resetting.world
      ≡ some r)
    × (ids r.0 ≡ ids started.connectors)
Reach-operate_total_example =
    Reach-operate_total ac 3 2 (some 3200) (some 23000) (some 100) resetting (some 3200) stack
      reached

-- Charging where the last status that was notified is one of a running transaction.
abbrev reflecting : Stack Hundredths
reflecting = record stack {
  connector_status = λ calls id. if shows_transaction id calls then charging else preparing;
}

reflecting-IsReflecting : IsReflecting reflecting
reflecting-IsReflecting = record {
  reflects = λ calls id. elim (Bool-cases (shows_transaction id calls)) [
    | inl e ↦ rw e refl
    | inr e ↦ rw e refl
  ];
}

-- One iteration after the start.
iterated :
    (r : List (Connector Hundredths) × World Hundredths) × (operate
        (some 3200)
        reflecting
        started.connectors
        started.world
      ≡ some r)
    × (ids r.0 ≡ ids started.connectors)
iterated =
    Reach-operate_total ac 3 2 (some 3200) (some 23000) (some 100) started (some 3200) reflecting
      here

Reach-AllConsistent_example :
    Alternates reflecting 1 iterated.0.1.calls
    × (shows_transaction 1 iterated.0.1.calls ≡ is_open reflecting 1 iterated.0.1.calls)
Reach-AllConsistent_example =
    Reach-AllConsistent ac 3 2 (some 3200) (some 23000) (some 100)
      (record { connectors = iterated.0.0; world = iterated.0.1 }) reflecting 1
      (then_step started (record { connectors = iterated.0.0; world = iterated.0.1 }) here
        (iterate (some 3200) reflecting started.connectors iterated.0.0 started.world iterated.0.1
          iterated.1))
      reflecting-IsReflecting (refl, tt)
