-- ===== src/System/Metering.antt =====
-- The meter values at the start and at the stop of a transaction, whatever the threads do in between.
use mathlib.Core.Path.{subst}
use open_ocpp_simu.Common.{
  ℕ, zero, suc, ◌*◌, ◌/◌, ◌^◌, ◌≤◌, ◌<◌, ◌≡◌, refl, some, List, [], ◌∷◌, arith, slot, pos,
}
use open_ocpp_simu.Float.{FloatOps}
use open_ocpp_simu.Connector.{ConnectorType}
use open_ocpp_simu.Meter.{get_energy}
use open_ocpp_simu.Handler.Answers.{to_int, get_tx_start_stop_meter_value}
use open_ocpp_simu.Sim.World.{Connector}
use open_ocpp_simu.Sim.Later.{Later, AllLater}
use open_ocpp_simu.System.{System, start_system, Reach}
use open_ocpp_simu.System.Invariants.{Reach-Leads, start_system-IsSound}

to_int-small : (n : ℕ) → n < 2 ^ 31 → to_int n ≡ pos n
unfolding to_int
to_int-small n h = ground arith

module _ {F : Type 0} where
  pub AllLater-slot :
      (cs ds : List (Connector F)) (id : ℕ) (d : Connector F)
      → AllLater cs ds
      → slot ds id ≡ some d
      → (c : Connector F) × (slot cs id ≡ some c) × Later c d
  unfolding slot
  AllLater-slot cs ds zero d h e = absurd cc
  AllLater-slot [] [] (suc i) d h e = absurd cc
  AllLater-slot [] (b ∷ ds) (suc i) d h e = elim h [ ]
  AllLater-slot (c ∷ cs) [] (suc i) d h e = elim h [ ]
  AllLater-slot (c ∷ cs) (b ∷ ds) (suc zero) d h e =
      let same : b ≡ d = ground (arith, e) in
      (c, refl, subst (λ (k : Connector F). Later c k) same h.0)
  AllLater-slot (c ∷ cs) (b ∷ ds) (suc (suc i)) d h e = AllLater-slot cs ds (suc i) d h.1 e

  meter_value_lem :
      (cs : List (Connector F)) (id : ℕ) (c : Connector F)
      → slot cs id ≡ some c
      → c.meter.energy < 2 ^ 31 * 1000
      → get_tx_start_stop_meter_value id cs ≡ some (pos (c.meter.energy / 1000))
  unfolding get_tx_start_stop_meter_value get_energy slot
  meter_value_lem cs zero c e h = absurd cc
  meter_value_lem cs (suc i) c e h = rw (e, to_int-small (c.meter.energy / 1000) (omega arith)) refl

module _ {F : Type 0} ⦃f : FloatOps F⦄ where
  -- Of two moments of a run, the meter value of a connector at the later one is not less than at the earlier one, whatever
  -- the threads did in between, and both are numbers of Wh, if the register is below 2^31 Wh at the later one.
  pub Reach-meter_value :
      (type : ConnectorType) (nb_phases nb_connectors : ℕ) (max_setpoint voltage pf : F)
      (a b : System F) (id : ℕ) (d : Connector F)
      → Reach (start_system type nb_phases nb_connectors max_setpoint voltage pf) a
      → Reach a b
      → slot b.connectors id ≡ some d
      → d.meter.energy < 2 ^ 31 * 1000
      → (x y : ℕ) × (get_tx_start_stop_meter_value id a.connectors ≡ some (pos x))
        × (get_tx_start_stop_meter_value id b.connectors ≡ some (pos y))
        × (x ≤ y)
  Reach-meter_value type nb_phases n max_setpoint voltage pf a b id d ra rb e h =
      let (_, sound) =
        Reach-Leads ra (start_system-IsSound type nb_phases n max_setpoint voltage pf) in
      let (l, _) = Reach-Leads rb sound in
      let (c, ec, later) = AllLater-slot a.connectors b.connectors id d l.0 e in
      (
        c.meter.energy / 1000,
        d.meter.energy / 1000,
        meter_value_lem a.connectors id c ec (omega (arith, later.energy)),
        meter_value_lem b.connectors id d e h,
        omega (arith, later.energy),
      )
