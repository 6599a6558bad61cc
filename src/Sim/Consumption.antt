-- ===== src/Sim/Consumption.antt =====
-- `computeConsumption`.
use open_ocpp_simu.Common.{
  ℕ, zero, suc, ◌<◌, ◌≤◌, true, false, ◌≡◌, refl, List, [], ◌∷◌, some, arith, get_elem?, length,
  if◌then◌else◌,
}
use open_ocpp_simu.Float.{FloatOps, ◌≼◌, IsNumber, IsIeee, min_float}
use open_ocpp_simu.Meter.{set_consumptions}
use open_ocpp_simu.Meter.Laws.{IsSized, set_consumptions_lem}
use open_ocpp_simu.Sim.World.{Connector}
use open_ocpp_simu.Sim.Setpoints.{is_charging}

module _ {F : Type 0} ⦃f : FloatOps F⦄ where
  -- The three consumptions of a charging connector, by the number of phases.
  unfoldable pub phase_consumptions : ℕ → Connector F → List F
  phase_consumptions (suc zero) c =
      min_float c.car_consumption_l1 c.setpoint ∷ f.nought ∷ f.nought ∷ []
  phase_consumptions (suc (suc zero)) c =
      min_float c.car_consumption_l1 c.setpoint
      ∷ min_float c.car_consumption_l2 c.setpoint
      ∷ f.nought
      ∷ []
  phase_consumptions (suc (suc (suc zero))) c =
      min_float c.car_consumption_l1 c.setpoint
      ∷ min_float c.car_consumption_l2 c.setpoint
      ∷ min_float c.car_consumption_l3 c.setpoint
      ∷ []
  phase_consumptions _ c = f.nought ∷ f.nought ∷ f.nought ∷ []

  unfoldable pub compute_consumption : Connector F → Connector F
  compute_consumption c = record c {
    meter = set_consumptions c.meter (
        if is_charging c.status
        then phase_consumptions c.meter.phases_count c
        else f.nought ∷ f.nought ∷ f.nought ∷ []);
  }

  -- The car's consumptions and the setpoint are not NaN.
  pub record IsMeasured (c : Connector F) : Type 0 where
    pub l1_number : IsNumber c.car_consumption_l1
    pub l2_number : IsNumber c.car_consumption_l2
    pub l3_number : IsNumber c.car_consumption_l3
    pub setpoint_number : IsNumber c.setpoint

  get_elem?-no_consumption :
      (i : ℕ) (x : F) → get_elem? (f.nought ∷ f.nought ∷ f.nought ∷ []) i ≡ some x → x ≡ f.nought
  get_elem?-no_consumption zero x e = ground arith
  get_elem?-no_consumption (suc zero) x e = ground arith
  get_elem?-no_consumption (suc (suc zero)) x e = ground arith
  get_elem?-no_consumption (suc (suc (suc i))) x e = ground arith

  module _ (laws : IsIeee F) where
    min_float-le : (a b : F) → IsNumber a → IsNumber b → (min_float a b ≼ a) × (min_float a b ≼ b)
    unfolding min_float
    min_float-le a b ha hb = ground (arith, laws.lt-eq-not-le b a hb ha, laws.le_of_lt b a)

    abbrev Facts : Connector F → Type 0
    Facts c =
        (min_float c.car_consumption_l1 c.setpoint ≼ c.setpoint)
        × (min_float c.car_consumption_l2 c.setpoint ≼ c.setpoint)
        × (min_float c.car_consumption_l3 c.setpoint ≼ c.setpoint)

    facts : (c : Connector F) → IsMeasured c → Facts c
    facts c m = (
      (min_float-le c.car_consumption_l1 c.setpoint m.l1_number m.setpoint_number).1,
      (min_float-le c.car_consumption_l2 c.setpoint m.l2_number m.setpoint_number).1,
      (min_float-le c.car_consumption_l3 c.setpoint m.l3_number m.setpoint_number).1,
    )

    phase_consumptions-le :
        (n : ℕ) (c : Connector F) (i : ℕ) (x : F)
        → IsMeasured c
        → i < n
        → n ≤ 3
        → get_elem? (phase_consumptions n c) i ≡ some x
        → x ≼ c.setpoint
    unfolding phase_consumptions
    phase_consumptions-le zero c i x m h k e = absurd (omega arith)
    phase_consumptions-le (suc zero) c zero x m h k e = ground (arith, facts c m)
    phase_consumptions-le (suc (suc zero)) c zero x m h k e = ground (arith, facts c m)
    phase_consumptions-le (suc (suc zero)) c (suc zero) x m h k e = ground (arith, facts c m)
    phase_consumptions-le (suc (suc (suc zero))) c zero x m h k e = ground (arith, facts c m)
    phase_consumptions-le (suc (suc (suc zero))) c (suc zero) x m h k e = ground (arith, facts c m)
    phase_consumptions-le (suc (suc (suc zero))) c (suc (suc zero)) x m h k e =
        ground (arith, facts c m)
    phase_consumptions-le (suc zero) c (suc i) x m h k e = absurd (omega arith)
    phase_consumptions-le (suc (suc zero)) c (suc (suc i)) x m h k e = absurd (omega arith)
    phase_consumptions-le (suc (suc (suc zero))) c (suc (suc (suc i))) x m h k e =
        absurd (omega arith)
    phase_consumptions-le (suc (suc (suc (suc n)))) c i x m h k e = absurd (omega arith)

    length-phase_consumptions : (n : ℕ) (c : Connector F) → length (phase_consumptions n c) ≡ 3
    unfolding phase_consumptions
    length-phase_consumptions zero c = refl
    length-phase_consumptions (suc zero) c = refl
    length-phase_consumptions (suc (suc zero)) c = refl
    length-phase_consumptions (suc (suc (suc zero))) c = refl
    length-phase_consumptions (suc (suc (suc (suc n)))) c = refl

    -- Of a sized meter with up to three phases, each phase consumes at most the setpoint while the
    -- connector is charging, if the floats have the laws of IEEE 754 and the car's consumptions and
    -- the setpoint are not NaN, and nothing in any other status. The meter stays sized.
    pub compute_consumption_lem :
        (c : Connector F) (i : ℕ) (x : F)
        → IsSized c.meter
        → IsMeasured c
        → c.meter.phases_count ≤ 3
        → i < c.meter.phases_count
        → let d = compute_consumption c in
          get_elem? d.meter.consumptions i ≡ some x
          → (is_charging c.status ≡ true → x ≼ c.setpoint)
            × (is_charging c.status ≡ false → x ≡ f.nought)
            × IsSized d.meter
    unfolding compute_consumption
    compute_consumption_lem c i x s m k h e =
        let busy = phase_consumptions c.meter.phases_count c in
        let written = set_consumptions_lem c.meter busy i s in
        let cleared = set_consumptions_lem c.meter (f.nought ∷ f.nought ∷ f.nought ∷ []) i s in
        let size = length-phase_consumptions c.meter.phases_count c in
        (
          λ on.
              phase_consumptions-le c.meter.phases_count c i x m h k
                (ground (arith, written, size)),
          λ off. get_elem?-no_consumption i x (ground (arith, cleared)),
          (set_consumptions_lem c.meter
              (if is_charging c.status then busy else f.nought ∷ f.nought ∷ f.nought ∷ []) i s).1,
        )
