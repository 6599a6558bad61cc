-- ===== src/System/Invariants.antt =====
-- In every state that the threads reach, each of them can go on, and the meters keep their registers.

use mathlib.Core.Path.{subst}
use open_ocpp_simu.Common.{
  ℕ, zero, suc, ◌+◌, ◌≤◌, ◌<◌, ◌≡◌, refl, ◌∙◌, true, false, some, List, [], Text, length, arith,
  length-replicate,
}
use open_ocpp_simu.Ocpp.{Stack}
use open_ocpp_simu.Float.{FloatOps}
use open_ocpp_simu.Connector.{ConnectorType, ac, dc, new_connector}
use open_ocpp_simu.Meter.{Meter, new_meter, set_power_factor}
use open_ocpp_simu.Meter.Laws.{IsSized, new_meter-IsSized, set_voltages-IsSized}
use open_ocpp_simu.Mqtt.{new_mqtt}
use open_ocpp_simu.Handler.{
  Handler, new_handler, clear_reset_pending, connection_state_changed, reset_requested,
}
use open_ocpp_simu.Sim.World.{World, Connector}
use open_ocpp_simu.Sim.Loop.{operate}
use open_ocpp_simu.Sim.Runs.{SameShape}
use open_ocpp_simu.Sim.Later.{
  AllLater, AllSized, ids, ids-AllLater, AllLater-refl, AllLater-trans, AllSized-AllLater,
}
use open_ocpp_simu.Sim.Rounds.{AllFit, AllFit-ids, operate_total}
use open_ocpp_simu.System.{
  System, phases_of, start_meter, start_connectors, start_system, Step, iterate, message,
  remote_start, remote_stop, availability, connection, reset, restart, measure, Reach, here,
  then_step,
}
use open_ocpp_simu.System.Sizes.{
  SameVectors, remote_start-SameVectors, remote_stop-SameVectors, message_received-SameMqtt,
}
use open_ocpp_simu.System.Kept.{
  SameLengths, SameLengths-AllFit, availability-AllLater, update_meter-AllLater,
}

module _ {F : Type 0} ⦃f : FloatOps F⦄ where
  -- The numbers are within the vectors, and the meters are sized.
  abbrev pub IsSound : System F → Type 0
  IsSound st = AllFit st.connectors st.world × AllSized st.connectors

  -- From one state to a later one: an end of the application stays, and the connectors are later.
  abbrev pub Leads : System F → System F → Type 0
  Leads a b =
      AllLater a.connectors b.connectors × (a.world.mqtt.ended ≡ true → b.world.mqtt.ended ≡ true)

  -- A step that leaves the connectors alone.
  shared_step :
      (cs : List (Connector F)) (w v : World F)
      → SameLengths w v
      → (w.mqtt.ended ≡ true → v.mqtt.ended ≡ true)
      → AllFit cs w × AllSized cs
      → (AllLater cs cs × (w.mqtt.ended ≡ true → v.mqtt.ended ≡ true)) × (AllFit cs v × AllSized cs)
  shared_step cs w v l e (h, s) = ((AllLater-refl cs, e), (SameLengths-AllFit cs w v l h, s))

  handler_step :
      (cs : List (Connector F)) (w : World F) (h : Handler)
      → SameVectors w.handler h
      → AllFit cs w × AllSized cs
      → (AllLater cs cs × (w.mqtt.ended ≡ true → w.mqtt.ended ≡ true))
        × (AllFit cs (record w { handler = h }) × AllSized cs)
  handler_step cs w h v = shared_step cs w (record w { handler = h }) (ground (arith, v)) (λ e. e)

  -- A step that leaves what the threads share alone.
  connector_step :
      (cs ds : List (Connector F)) (w : World F)
      → AllLater cs ds
      → AllFit cs w × AllSized cs
      → (AllLater cs ds × (w.mqtt.ended ≡ true → w.mqtt.ended ≡ true)) × (AllFit ds w × AllSized ds)
  connector_step cs ds w l (h, s) =
      ((l, λ e. e), (AllFit-ids cs ds w (ids-AllLater cs ds l) h, AllSized-AllLater cs ds l s))

  -- A step of a thread keeps the state sound, and leads to a later one.
  Step-Leads : {a b : System F} → Step a b → IsSound a → Leads a b × IsSound b
  unfolding connection_state_changed reset_requested clear_reset_pending
  Step-Leads (iterate max s cs ds w v e) (h, z) =
      let (r, er, sr, lr, fr) = operate_total max s cs w h in
      let same : r ≡ (ds, v) = cc in
      let later : AllLater cs ds =
        subst (λ (q : List (Connector F) × World F). AllLater cs q.0) same lr in
      let shape : SameShape w v =
        subst (λ (q : List (Connector F) × World F). SameShape w q.1) same sr in
      (
        (later, λ t. shape.ended_same ∙ t),
        (
          subst (λ (q : List (Connector F) × World F). AllFit q.0 q.1) same fr,
          AllSized-AllLater cs ds later z,
        ),
      )
  Step-Leads (message parse topic payload m b cs w e) h =
      let (k, t) = message_received-SameMqtt parse topic payload w.mqtt m b e in
      shared_step cs w (record w { mqtt = m }) (ground (arith, k)) t h
  Step-Leads (remote_start status before id tag g b cs w e) h =
      handler_step cs w g
        (remote_start-SameVectors status before (length cs) id tag w.handler g b e) h
  Step-Leads (remote_stop id g b cs w e) h =
      handler_step cs w g (remote_stop-SameVectors id w.handler g b e) h
  Step-Leads (availability id a r cs ds w e) h =
      connector_step cs ds w (availability-AllLater id a r cs ds e) h
  Step-Leads (connection b cs w) h =
      handler_step cs w (connection_state_changed w.handler b) (refl, refl, refl) h
  Step-Leads (reset cs w) h = handler_step cs w (reset_requested w.handler).0 (refl, refl, refl) h
  Step-Leads (restart cs w) h =
      handler_step cs w (clear_reset_pending w.handler) (refl, refl, refl) h
  Step-Leads (measure id cs ds w e) h =
      connector_step cs ds w (update_meter-AllLater id cs ds h.1 e) h

  -- From a sound state the threads reach only sound and later states.
  pub Reach-Leads : {a b : System F} → Reach a b → IsSound a → Leads a b × IsSound b
  Reach-Leads {a} here h = ((AllLater-refl a.connectors, λ e. e), h)
  Reach-Leads {a} (then_step b c r s) h =
      let (l, k) = Reach-Leads r h in
      let (m, n) = Step-Leads s k in
      ((AllLater-trans a.connectors b.connectors c.connectors l.0 m.0, λ e. m.1 (l.1 e)), n)

  start_meter-IsSized :
      (type : ConnectorType) (nb_phases : ℕ) (voltage pf : F)
      → IsSized (start_meter type (phases_of type nb_phases) voltage pf)
  unfolding start_meter phases_of set_power_factor
  start_meter-IsSized type nb_phases voltage pf =
      let m = new_meter {F = F} (phases_of type nb_phases) type in
      let s =
        set_voltages-IsSized m _
          (new_meter-IsSized (phases_of type nb_phases) type (some_phase type)) in
      record {
        voltages_size = s.voltages_size;
        consumptions_size = s.consumptions_size;
        powers_size = s.powers_size;
        dc_phase = s.dc_phase;
      }
    where
      some_phase : (t : ConnectorType) → t ≡ dc → 0 < phases_of t nb_phases
      some_phase ac e = cc
      some_phase dc e = omega arith

  start_connectors-AllSized :
      (meter : Meter F) (max_setpoint : F) (i left : ℕ)
      → IsSized meter
      → AllSized (start_connectors meter max_setpoint i left)
  unfolding start_connectors
  start_connectors-AllSized meter max_setpoint i zero s = tt
  start_connectors-AllSized meter max_setpoint i (suc left) s =
      (s, start_connectors-AllSized meter max_setpoint (suc i) left s)

  AllFit-start :
      (meter : Meter F) (max_setpoint : F) (i left : ℕ) (w : World F)
      → (i + left ≤ length w.mqtt.connectors)
        × (i + left ≤ length w.handler.remote_start_pending)
        × (i + left ≤ length w.handler.remote_stop_pending)
        × (i + left ≤ length w.handler.remote_start_id_tags)
      → AllFit (start_connectors meter max_setpoint i left) w
  unfolding start_connectors
  AllFit-start meter max_setpoint i zero w h = tt
  AllFit-start meter max_setpoint i (suc left) w h = (
    omega (arith, h.0, h.1, h.2, h.3),
    AllFit-start meter max_setpoint (suc i) left w
        (omega (arith, h.0), omega (arith, h.1), omega (arith, h.2), omega (arith, h.3)),
  )

  pub start_system-IsSound :
      (type : ConnectorType) (nb_phases nb_connectors : ℕ) (max_setpoint voltage pf : F)
      → IsSound (start_system type nb_phases nb_connectors max_setpoint voltage pf)
  unfolding start_system new_mqtt new_handler clear_reset_pending
  start_system-IsSound type nb_phases n max voltage pf =
      let w = (start_system type nb_phases n max voltage pf).world in
      let no_tag : Text = [] in
      let meter = start_meter type (phases_of type nb_phases) voltage pf in
      (
        AllFit-start meter max 0 n w (
          omega (arith, length-replicate n (new_connector {F = F} {M = Unit {0}} tt)),
          omega (arith, length-replicate n false),
          omega (arith, length-replicate n false),
          omega (arith, length-replicate n no_tag),
        ),
        start_connectors-AllSized meter max 0 n (start_meter-IsSized type nb_phases voltage pf),
      )

  -- Whatever the threads did since the start, in whatever order, the next iteration of the control loop completes without
  -- an access out of bounds, for every answer of the stack, and the connectors still have the numbers of the start.
  pub Reach-operate_total :
      (type : ConnectorType) (nb_phases nb_connectors : ℕ) (max_setpoint voltage pf : F)
      (st : System F) (max : F) (s : Stack F)
      → Reach (start_system type nb_phases nb_connectors max_setpoint voltage pf) st
      → (r : List (Connector F) × World F) × (operate max s st.connectors st.world ≡ some r)
        × (ids r.0
            ≡ ids (start_system type nb_phases nb_connectors max_setpoint voltage pf).connectors)
  Reach-operate_total type nb_phases n max_setpoint voltage pf st max s reach =
      let a = start_system type nb_phases n max_setpoint voltage pf in
      let (l, h) =
        Reach-Leads reach (start_system-IsSound type nb_phases n max_setpoint voltage pf) in
      let (r, e, _, later, _) = operate_total max s st.connectors st.world h.0 in
      (r, e, ids-AllLater st.connectors r.0 later ∙ ids-AllLater a.connectors st.connectors l.0)
