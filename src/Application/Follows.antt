-- ===== src/Application/Follows.antt =====
-- One step of the thread of the control loop after the other: what it keeps, and that it is never out of bounds.

use mathlib.Core.Path.{subst}
use open_ocpp_simu.Common.{
  ℕ, ◌≤◌, ◌<◌, ◌≡◌, refl, ◌∙◌, Bool, true, false, Option, none, some, Text, arith, Bool-cases,
  if◌then◌else◌, inl, inr, dec_lt,
}
use open_ocpp_simu.Ocpp.{RegistrationStatus, Stack}
use open_ocpp_simu.Float.{FloatOps}
use open_ocpp_simu.Handler
use open_ocpp_simu.Paho.Library.{PahoLib, qos_0}
use open_ocpp_simu.Paho.{PahoClient, is_connected}
use open_ocpp_simu.Paho.Requests.{Request}
use open_ocpp_simu.Paho.Resources.{IsClean, perform-IsClean}
use open_ocpp_simu.Session.Publishing.{
  Members, publish_data, publish_status_message, publish_connectors_total,
}
use open_ocpp_simu.Sim.Later.{AllLater, AllLater-refl, AllLater-trans, AllSized-AllLater}
use open_ocpp_simu.Sim.Loop.{LoopVars, report_status}
use open_ocpp_simu.Sim.Rounds.{operate_total}
use open_ocpp_simu.System.{System, Reach}
use open_ocpp_simu.System.Kept.{SameLengths-AllFit}
use open_ocpp_simu.System.Invariants.{IsSound, Reach-Leads}
use open_ocpp_simu.Application.{
  Site, Others, Running, ask_status, report, publish_connectors_data, sleep, operate_and_publish,
}

-- The other threads take only steps of the program, and their calls of the MQTT client are those of its interface.
-- The application is ended during the sleep number `last`, and no reset is requested after it. Only this thread clears
-- a pending reset. `m_mqtt` points to the client.
pub record Behaves {F : Type 0} ⦃f : FloatOps F⦄ (others : Others F) (last : ℕ) : Type 0 where
  pub reaches : (n : ℕ) (st : System F) → Reach st (others.threads n st)
  pub clean : (n : ℕ) (c : PahoClient) → IsClean c → IsClean (others.client_calls n c)
  pub there : (n : ℕ) → others.has_client n ≡ true
  pub ends : (st : System F) → (others.threads last st).world.mqtt.ended ≡ true
  pub calm :
      (n : ℕ) (st : System F)
      → last < n
      → st.world.handler.reset_pending ≡ false
      → (others.threads n st).world.handler.reset_pending ≡ false
  pub keeps_reset :
      (n : ℕ) (st : System F)
      → st.world.handler.reset_pending ≡ true
      → (others.threads n st).world.handler.reset_pending ≡ true

-- What holds between two steps of the thread.
pub record IsValid {F : Type 0} ⦃f : FloatOps F⦄ (last : ℕ) (r : Running F) : Type 0 where
  pub sound : IsSound r.system
  pub clean : IsClean r.client
  pub ended : last < r.sleeps → r.system.world.mqtt.ended ≡ true

-- The second is a later state of the thread, with no new reset once the application is ended.
pub record Follows {F : Type 0} ⦃f : FloatOps F⦄ (last : ℕ) (r q : Running F) : Type 0 where
  pub time : r.sleeps ≤ q.sleeps
  pub later : AllLater r.system.connectors q.system.connectors
  pub calm :
      last < r.sleeps
      → r.system.world.handler.reset_pending ≡ false
      → q.system.world.handler.reset_pending ≡ false

module _ {F : Type 0} ⦃f : FloatOps F⦄ (last : ℕ) where
  -- A valid state that follows another one.
  abbrev pub Goes : Running F → Running F → Type 0
  Goes r q = IsValid last q × Follows last r q

  pub Goes-trans : (r q t : Running F) → Goes r q → Goes q t → Goes r t
  Goes-trans r q t (v, h) (w, k) = (
    w,
    record {
      time = omega (arith, h.time, k.time);
      later =
          AllLater-trans r.system.connectors q.system.connectors t.system.connectors h.later
            k.later;
      calm = λ l z. k.calm (omega (arith, l, h.time)) (h.calm l z);
    },
  )

  -- A step that changes only the calls on the stack, the client and the variables.
  pub quiet_step :
      (r : Running F) (c : PahoClient) (v : LoopVars)
      → IsValid last r
      → IsClean c
      → Goes r (record r { system = ask_status r.system; client = c; vars = v })
        × Goes r (record r { client = c; vars = v })
  quiet_step r c v h k = (
    (
      record {
        sound = (
          SameLengths-AllFit r.system.connectors r.system.world (ask_status r.system).world
              (record { mqtt_size = refl; start_size = refl; stop_size = refl; tag_size = refl })
              h.sound.0,
          h.sound.1,
        );
        clean = k;
        ended = h.ended;
      },
      record { time = omega arith; later = AllLater-refl r.system.connectors; calm = λ l z. z },
    ),
    (
      record { sound = h.sound; clean = k; ended = h.ended },
      record { time = omega arith; later = AllLater-refl r.system.connectors; calm = λ l z. z },
    ),
  )

  module _ (lib : PahoLib) (write : Members F → Text) where
    publish_status_message-IsClean :
        (topic message : Text) (c : PahoClient)
        → IsClean c
        → IsClean (publish_status_message lib write topic message c).1
    unfolding publish_status_message
    publish_status_message-IsClean topic message c h =
        let r = is_connected lib c in
        let k = perform-IsClean lib Request.is_connected c h in
        elim (Bool-cases r.0) [
          | inl e ↦ rw e (perform-IsClean lib (Request.publish topic message qos_0 true) r.1 k)
          | inr e ↦ rw e k
        ]

    module _ (site : Site F) (stack : Stack F) (others : Others F) where
      pub report_total :
          (r : Running F)
          → Behaves others last
          → IsValid last r
          → (t : Running F) × (report lib write site others stack r ≡ some t) × Goes r t
      unfolding report
      report_total r b h = go q.0 q.1
        where
          answer : Option RegistrationStatus → Bool × PahoClient
          answer st =
              publish_status_message lib write site.status_topic (site.status_message st) r.client

          q : Option (Option RegistrationStatus) × LoopVars
          q =
              report_status (λ st. (answer st).0) (Handler.is_connected r.system.world.handler)
                (stack.registration_status r.system.world.calls) r.vars

          go :
              (o : Option (Option RegistrationStatus)) (v : LoopVars)
              → let asked : Running F = record r { system = ask_status r.system; vars = v } in
                (t : Running F) × (elim o [
                  | none ↦ some asked
                  | some st ↦
                      if others.has_client r.sleeps
                      then some (record asked { client = (answer st).1 })
                      else none
                ]
                  ≡ some t)
                × Goes r t
          go none v = (
            record r { system = ask_status r.system; vars = v },
            refl,
            (quiet_step r r.client v h h.clean).0,
          )
          go (some st) v = (
            record r { system = ask_status r.system; vars = v; client = (answer st).1 },
            rw (b.there r.sleeps) refl,
            (quiet_step r (answer st).1 v h (
                publish_status_message-IsClean site.status_topic (site.status_message st) r.client
                  h.clean)).0,
          )

      pub publish_connectors_data_total :
          (r : Running F)
          → Behaves others last
          → IsValid last r
          → (q : Running F) × (publish_connectors_data lib write site others r ≡ some q)
            × Goes r q
            × (q.system ≡ r.system)
            × (q.sleeps ≡ r.sleeps)
      unfolding publish_connectors_data publish_data
      publish_connectors_data_total r b h =
          let c = is_connected lib r.client in
          let k = perform-IsClean lib Request.is_connected r.client h.clean in
          elim (Bool-cases c.0) [
            | inr e ↦ (
              record r { client = c.1 },
              rw (b.there r.sleeps, e) refl,
              (quiet_step r c.1 r.vars h k).1,
              refl,
              refl,
            )
            | inl e ↦
                let (d, ed, kd) =
                  publish_connectors_total lib write site.status_name site.connectors_topic
                    r.system.connectors c.1 h.sound.1 k in
                (
                  record r { client = d },
                  rw (b.there r.sleeps, e, ed) refl,
                  (quiet_step r d r.vars h kd).1,
                  refl,
                  refl,
                )
          ]

      pub sleep-Goes :
          (r : Running F) → Behaves others last → IsValid last r → Goes r (sleep others r)
      unfolding sleep
      sleep-Goes r b h =
          let (l, s) = Reach-Leads (b.reaches r.sleeps r.system) h.sound in
          (
            record {
              sound = s;
              clean = b.clean r.sleeps r.client h.clean;
              ended = λ x. elim (dec_lt last r.sleeps) [
                | yes p ↦ l.1 (h.ended p)
                | no p ↦
                    subst (λ (k : ℕ). (others.threads k r.system).world.mqtt.ended ≡ true)
                      {x = last} (omega (arith, x)) (b.ends r.system)
              ];
            },
            record { time = omega arith; later = l.0; calm = λ x z. b.calm r.sleeps r.system x z },
          )

      pub operate_and_publish_total :
          (r : Running F)
          → Behaves others last
          → IsValid last r
          → (q : Running F) × (operate_and_publish lib write site others stack r ≡ some q)
            × Goes r q
            × (r.sleeps < q.sleeps)
      unfolding operate_and_publish sleep
      operate_and_publish_total r b h =
          let (t, e, shape, later, fits) =
            operate_total site.max_charge_point_setpoint stack r.system.connectors r.system.world
              h.sound.0 in
          let m : Running F = record r { system = record { connectors = t.0; world = t.1 } } in
          let gm : Goes r m = (
            record {
              sound = (fits, AllSized-AllLater r.system.connectors t.0 later h.sound.1);
              clean = h.clean;
              ended = λ x. shape.ended_same ∙ h.ended x;
            },
            record { time = omega arith; later = later; calm = λ l z. shape.reset_same ∙ z },
          ) in
          let (p, ep, gp, _, same) = publish_connectors_data_total m b gm.0 in
          let q = sleep others p in
          (
            q,
            rw (operate_and_publish, e, ep) refl,
            Goes-trans r p q (Goes-trans r m p gm gp) (sleep-Goes p b gp.0),
            omega (arith, same),
          )
