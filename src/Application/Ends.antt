-- ===== src/Application/Ends.antt =====
-- The thread of the control loop ends, without an access out of bounds, once the application is ended.
use open_ocpp_simu.Common.{
  ℕ, zero, suc, ◌+◌, ◌≤◌, ◌<◌, ◌≡◌, refl, ap, ◌∙◌, true, false, some, Text, arith, Bool-cases, inl,
  inr, dec_lt,
}
use open_ocpp_simu.Ocpp.{Stack}
use open_ocpp_simu.Float.{FloatOps}
use open_ocpp_simu.Connector.{ConnectorType}
use open_ocpp_simu.Mqtt.{is_end_of_application}
use open_ocpp_simu.Handler.{is_reset_pending, clear_reset_pending}
use open_ocpp_simu.Paho.Library.{PahoLib}
use open_ocpp_simu.Paho.{PahoClient}
use open_ocpp_simu.Paho.Resources.{IsClean}
use open_ocpp_simu.Session.Publishing.{Members}
use open_ocpp_simu.Sim.Loop.{is_over, keeps_waiting}
use open_ocpp_simu.Sim.Later.{AllLater, AllLater-refl, AllLater-trans}
use open_ocpp_simu.System.Kept.{SameLengths-AllFit}
use open_ocpp_simu.System.Invariants.{start_system-IsSound}
use open_ocpp_simu.Application.{
  Site, Others, Running, after_condition, report, publish_connectors_data, sleep, wait_registration,
  iteration, iterations, new_running, begin, end_loop, run_charge_points,
}
use open_ocpp_simu.Application.Follows.{
  Behaves, IsValid, Follows, Goes, Goes-trans, quiet_step, report_total,
  publish_connectors_data_total, sleep-Goes, operate_and_publish_total,
}

module _ {F : Type 0} ⦃f : FloatOps F⦄ (last : ℕ) where
  -- A thread that goes on has not slept more often than until the end of the application.
  going_on : (r : Running F) → IsValid last r → is_over r.system.world ≡ false → r.sleeps ≤ last
  unfolding is_over is_end_of_application
  going_on r h e = elim (dec_lt last r.sleeps) [
    | yes p ↦ let t = h.ended p in ground (arith, t, e)
    | no p ↦ omega arith
  ]

  keeps_waiting-is_over :
      (stack : Stack F) (r : Running F)
      → keeps_waiting stack r.system.world ≡ true
      → is_over r.system.world ≡ false
  unfolding keeps_waiting
  keeps_waiting-is_over stack r e = ground (arith, e)

  condition-Goes :
      (r : Running F)
      → IsValid last r
      → Goes last r (record r { system = after_condition r.system })
  condition-Goes r h = elim (Bool-cases (is_over r.system.world)) [
    | inl e ↦ rw e (quiet_step last r r.client r.vars h h.clean).1
    | inr e ↦ rw e (quiet_step last r r.client r.vars h h.clean).0
  ]

  -- The clearing of a reset.
  begin-IsValid :
      (r : Running F)
      → IsValid last r
      → IsValid last (begin r) × AllLater r.system.connectors (begin r).system.connectors
  unfolding clear_reset_pending
  begin-IsValid r h = (
    record {
      sound = (
        SameLengths-AllFit r.system.connectors r.system.world (begin r).system.world
            (record { mqtt_size = refl; start_size = refl; stop_size = refl; tag_size = refl })
            h.sound.0,
        h.sound.1,
      );
      clean = h.clean;
      ended = h.ended;
    },
    AllLater-refl r.system.connectors,
  )

  module _ (lib : PahoLib) (write : Members F → Text) (site : Site F) (stack : Stack F)
      (others : Others F) (b : Behaves others last) where
    -- One turn of the wait.
    turn_total :
        (r : Running F)
        → IsValid last r
        → let c : Running F = record r { system = after_condition r.system } in
          (p : Running F) × (t : Running F) × (report lib write site others stack c ≡ some p)
          × (publish_connectors_data lib write site others p ≡ some t)
          × Goes last r (sleep others t)
          × (r.sleeps < (sleep others t).sleeps)
    unfolding sleep
    turn_total r h =
        let c : Running F = record r { system = after_condition r.system } in
        let gc = condition-Goes r h in
        let (p, ep, gr) = report_total last lib write site stack others c b gc.0 in
        let gp = Goes-trans last r c p gc gr in
        let (t, et, gt, _, same) =
          publish_connectors_data_total last lib write site stack others p b gp.0 in
        let gu = sleep-Goes last lib write site stack others t b gt.0 in
        (
          p,
          t,
          ep,
          et,
          Goes-trans last r t (sleep others t) (Goes-trans last r p t gp gt) gu,
          omega (arith, same, gp.1.time),
        )

    wait_registration_total :
        (fuel : ℕ) (r : Running F)
        → IsValid last r
        → 0 < fuel
        → suc last < r.sleeps + fuel
        → (q : Running F) × (wait_registration lib write site others stack fuel r ≡ some q)
          × Goes last r q
    unfolding wait_registration
    wait_registration_total zero r h z n = absurd (omega arith)
    wait_registration_total (suc fuel) r h z n =
        elim (Bool-cases (keeps_waiting stack r.system.world)) [
          | inr e ↦
              let c : Running F = record r { system = after_condition r.system } in
              (c, rw (wait_registration, e) refl, condition-Goes r h)
          | inl e ↦
              let early = going_on r h (keeps_waiting-is_over stack r e) in
              let (p, t, ep, et, gu, lt) = turn_total r h in
              let u = sleep others t in
              let (q, eq, gq) =
                wait_registration_total fuel u gu.0 (omega arith) (omega (arith, lt)) in
              (q, rw (wait_registration, e, ep, et) eq, Goes-trans last r u q gu gq)
        ]

    iteration_total :
        (fuel : ℕ) (r : Running F)
        → IsValid last r
        → 0 < fuel
        → suc last < r.sleeps + fuel
        → (q : Running F) × (iteration lib write site others stack fuel r ≡ some q)
          × Goes last r q
          × (r.sleeps < q.sleeps)
    unfolding iteration
    iteration_total fuel r h z n =
        let (p, ep, gp) = wait_registration_total fuel r h z n in
        let (t, et, gr) = report_total last lib write site stack others p b gp.0 in
        let gt = Goes-trans last r p t gp gr in
        let (q, eq, gq, lt) = operate_and_publish_total last lib write site stack others t b gt.0 in
        (q, rw (iteration, ep, et) eq, Goes-trans last r t q gt gq, omega (arith, lt, gt.1.time))

    -- The loop ends with the end of the application or a reset.
    iterations_total :
        (fuel : ℕ) (r : Running F)
        → IsValid last r
        → 1 < fuel
        → suc (suc last) < r.sleeps + fuel
        → (q : Running F) × (iterations lib write site others stack fuel r ≡ some q)
          × Goes last r q
          × (r.sleeps < q.sleeps)
          × (is_over q.system.world ≡ true)
    unfolding iterations
    iterations_total zero r h z n = absurd (omega arith)
    iterations_total (suc fuel) r h z n =
        let (p, ep, gp, lt) = iteration_total fuel r h (omega arith) (omega arith) in
        elim (Bool-cases (is_over p.system.world)) [
          | inl e ↦ (p, rw (iterations, ep, e) refl, gp, lt, e)
          | inr e ↦
              let early = going_on p gp.0 e in
              let (q, eq, gq, l, o) =
                iterations_total fuel p gp.0 (omega (arith, lt, early)) (omega (arith, lt)) in
              (q, rw (iterations, ep, e) eq, Goes-trans last r p q gp gq, omega (arith, l, lt), o)
        ]

    restart_pending :
        (p : Running F)
        → is_reset_pending p.system.world.handler ≡ true
        → is_reset_pending (sleep others p).system.world.handler ≡ true
    unfolding sleep is_reset_pending
    restart_pending p e = b.keeps_reset p.sleeps p.system e

    -- What is left when the loop of `start` ends.
    abbrev IsEnd : Running F → Running F → Type 0
    IsEnd r q =
        IsClean q.client
        × AllLater r.system.connectors q.system.connectors
        × (is_end_of_application q.system.world.mqtt ≡ true)
        × (is_reset_pending q.system.world.handler ≡ false)

    ended_by :
        (p : Running F)
        → is_over p.system.world ≡ true
        → is_reset_pending p.system.world.handler ≡ false
        → is_end_of_application p.system.world.mqtt ≡ true
    unfolding is_over
    ended_by p o e = ground (arith, o, e)

    begin-calm :
        (r p : Running F)
        → last < r.sleeps
        → Follows last (begin r) p
        → is_reset_pending p.system.world.handler ≡ false
    unfolding is_reset_pending clear_reset_pending
    begin-calm r p l h = h.calm l refl

    end_loop-quiet :
        (p : Running F) → is_reset_pending p.system.world.handler ≡ false → end_loop others p ≡ p
    unfolding end_loop
    end_loop-quiet p e = rw e refl

    end_loop-reset :
        (p : Running F)
        → is_reset_pending p.system.world.handler ≡ true
        → end_loop others p ≡ sleep others p
    unfolding end_loop
    end_loop-reset p e = rw e refl

    run_once :
        (fuel : ℕ) (r p : Running F)
        → iterations lib write site others stack fuel (begin r) ≡ some p
        → is_reset_pending p.system.world.handler ≡ false
        → run_charge_points lib write site others stack (suc fuel) r ≡ some p
    unfolding run_charge_points
    run_once fuel r p ep e =
        let same = end_loop-quiet p e in
        let still : is_reset_pending (end_loop others p).system.world.handler ≡ false = rw same e in
        rw (run_charge_points, ep, still) (ap some same)

    run_again :
        (fuel : ℕ) (r p : Running F)
        → iterations lib write site others stack fuel (begin r) ≡ some p
        → is_reset_pending p.system.world.handler ≡ true
        → is_reset_pending (sleep others p).system.world.handler ≡ true
        → run_charge_points lib write site others stack (suc fuel) r
          ≡ run_charge_points lib write site others stack fuel (sleep others p)
    unfolding run_charge_points
    run_again fuel r p ep e pending =
        let same = end_loop-reset p e in
        let still : is_reset_pending (end_loop others p).system.world.handler ≡ true =
          rw same pending in
        rw (run_charge_points, ep, still)
          (ap (run_charge_points lib write site others stack fuel) same)

    -- A loop that begins after the end of the application is the last one.
    last_run :
        (fuel : ℕ) (r : Running F)
        → IsValid last r
        → last < r.sleeps
        → 2 < fuel
        → (q : Running F) × (run_charge_points lib write site others stack fuel r ≡ some q)
          × IsEnd r q
    last_run zero r h l z = absurd (omega arith)
    last_run (suc fuel) r h l z =
        let (v, lv) = begin-IsValid r h in
        let (p, ep, gp, lt, o) = iterations_total fuel (begin r) v (omega arith) (omega arith) in
        let e = begin-calm r p l gp.1 in
        (p, run_once fuel r p ep e, (gp.0.clean, gp.1.later, ended_by p o e, e))

    run_charge_points_total :
        (fuel : ℕ) (r : Running F)
        → IsValid last r
        → 3 < fuel
        → 4 + last < r.sleeps + fuel
        → (q : Running F) × (run_charge_points lib write site others stack fuel r ≡ some q)
          × IsEnd r q
    run_charge_points_total zero r h z n = absurd (omega arith)
    run_charge_points_total (suc fuel) r h z n =
        let (v, lv) = begin-IsValid r h in
        let (p, ep, gp, lt, o) = iterations_total fuel (begin r) v (omega arith) (omega arith) in
        elim (Bool-cases (is_reset_pending p.system.world.handler)) [
          | inr e ↦ (p, run_once fuel r p ep e, (gp.0.clean, gp.1.later, ended_by p o e, e))
          | inl e ↦
              let t = sleep others p in
              let gs = sleep-Goes last lib write site stack others p b gp.0 in
              let gt = Goes-trans last (begin r) p t gp gs in
              let pending = restart_pending p e in
              let (q, eq, k) : (q : Running F) × (run_charge_points lib write site others stack fuel
                      t
                    ≡ some q)
                  × IsEnd t q =
                elim (dec_lt last t.sleeps) [
                  | yes l ↦ last_run fuel t gt.0 l (omega arith)
                  | no l ↦
                      run_charge_points_total fuel t gt.0 (omega (arith, lt, gs.1.time))
                        (omega (arith, lt, gs.1.time))
                ] in
              (
                q,
                run_again fuel r p ep e pending ∙ eq,
                (
                  k.0,
                  AllLater-trans r.system.connectors t.system.connectors q.system.connectors
                      gt.1.later k.1,
                  k.2,
                  k.3,
                ),
              )
        ]

  -- If the other threads take only steps of the program, keep the calls of the MQTT client as its
  -- library wants them and do not clear a pending reset, if `m_mqtt` points to the client
  -- throughout, the application is ended during a sleep and no reset is requested after it, and if
  -- the client respects its library at the start, then the loop of `start` over the charge points,
  -- after which it stops the meters and waits for the MQTT thread, ends, with as much fuel as
  -- sleeps until then and 5 more, and with no access out of bounds: neither the publication of the
  -- data nor the work on the connectors indexes a vector outside. It then has read the end of the
  -- application, no reset is pending, the calls of the MQTT client respect its library, the
  -- connectors have their numbers and phases still, and the registers of their meters are not less
  -- than at the start.
  pub start_total :
      (lib : PahoLib) (write : Members F → Text) (site : Site F) (stack : Stack F)
      (others : Others F) (type : ConnectorType) (nb_phases nb_connectors : ℕ)
      (max_setpoint voltage pf : F) (client : PahoClient) (fuel : ℕ)
      → Behaves others last
      → IsClean client
      → 4 + last < fuel
      → let r = new_running type nb_phases nb_connectors max_setpoint voltage pf client in
        (q : Running F) × (run_charge_points lib write site others stack fuel r ≡ some q)
        × IsClean q.client
        × AllLater r.system.connectors q.system.connectors
        × (is_end_of_application q.system.world.mqtt ≡ true)
        × (is_reset_pending q.system.world.handler ≡ false)
  start_total lib write site stack others type nb_phases n max_setpoint voltage pf client fuel b k
        z =
      let (q, e, h) =
        run_charge_points_total lib write site stack others b fuel
          (new_running type nb_phases n max_setpoint voltage pf client)
          (record {
            sound = start_system-IsSound type nb_phases n max_setpoint voltage pf;
            clean = k;
            ended = λ l. absurd (omega (arith, l));
          })
          (omega arith) (omega arith) in
      (q, e, h.0, h.1, h.2, h.3)
