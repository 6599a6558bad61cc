-- ===== src/Handler/Measures.antt =====
-- `getMeterValue` and `getTxStartStopMeterValue`. A sampled value has its phase and what
-- `std::to_string` prints. A read out of bounds, or of the power factor before it is set, is `none`.
use open_ocpp_simu.Common.{
  ℕ, zero, suc, ◌<◌, ◌≡◌, leb, Bool, true, false, Option, none, some, List, [], ◌∷◌, get_elem?,
  length, slot, if◌then◌else◌, arith, get_elem?_total, refl, ◌∙◌,
}
use open_ocpp_simu.Connector.{ac, dc}
use open_ocpp_simu.Meter.{Meter, get_energy}
use open_ocpp_simu.Meter.Laws.{IsSized}
use open_ocpp_simu.Sim.World.{Connector}

-- The measurands that the simulator knows, and all others.
pub data Measurand : Type 0 where
  current_import current_offered power_offered energy_active_import_register power_active_import
        power_factor voltage other_measurand :
      Measurand

-- A float as it is, a float cast to an unsigned int, and the energy.
pub data Printed (F : Type 0) : Type 0 where
  float truncated : F → Printed F
  energy : ℕ → Printed F

pub record Sample (F : Type 0) : Type 0 where
  pub value : Printed F
  pub phase : Option ℕ

-- The measurands that are measured by phase.
abbrev pub IsByPhase : Measurand → Type 0
IsByPhase current_import = Unit {0}
IsByPhase power_active_import = Unit {0}
IsByPhase voltage = Unit {0}
IsByPhase _ = ⊥

module _ {F : Type 0} where
  -- The value of the phase that is asked for.
  unfoldable pub phase_sample : List F → ℕ → ℕ → Option (Bool × List (Sample F))
  phase_sample xs nb_phases phase =
      if leb phase nb_phases
      then elim (get_elem? xs phase) [
        | none ↦ none
        | some x ↦ some (true, record { value = Printed.float x; phase = some phase } ∷ [])
      ]
      else some (false, [])

  -- All values, from the phase `i` on.
  unfoldable pub all_samples : ℕ → List F → List (Sample F)
  all_samples i [] = []
  all_samples i (x ∷ xs) =
      record { value = Printed.float x; phase = some i } ∷ all_samples (suc i) xs

  unfoldable pub samples : List F → ℕ → Option ℕ → Option (Bool × List (Sample F))
  samples xs nb_phases none = some (true, all_samples 0 xs)
  samples xs nb_phases (some phase) = phase_sample xs nb_phases phase

  -- A value without a phase.
  abbrev pub single : Printed F → Option (Bool × List (Sample F))
  single v = some (true, record { value = v; phase = none } ∷ [])

  unfoldable pub power_samples : Meter F → Option ℕ → Option (Bool × List (Sample F))
  power_samples m (some phase) = phase_sample m.powers m.phases_count phase
  power_samples m none = elim m.current_out_type [
    | ac ↦ some (true, all_samples 0 m.powers)
    | dc ↦ elim (get_elem? m.powers 0) [ none ↦ none | some p ↦ single (Printed.float p) ]
  ]

  unfoldable pub measure : Measurand → Option ℕ → Connector F → Option (Bool × List (Sample F))
  measure current_import phase c = samples c.meter.consumptions c.meter.phases_count phase
  measure current_offered phase c = single (Printed.truncated c.setpoint)
  measure power_offered phase c = single (Printed.truncated c.setpoint)
  measure energy_active_import_register phase c = single (Printed.energy (get_energy c.meter))
  measure power_active_import phase c = power_samples c.meter phase
  measure power_factor phase c = elim c.meter.power_factor [
    | none ↦ none
    | some x ↦ single (Printed.float x)
  ]
  measure voltage phase c = samples c.meter.voltages c.meter.phases_count phase
  measure other_measurand phase c = some (false, [])

  unfoldable pub get_meter_value :
      ℕ → Measurand → Option ℕ → List (Connector F) → Option (Bool × List (Sample F))
  get_meter_value zero measurand phase cs = some (false, [])
  get_meter_value (suc i) measurand phase cs = elim (slot cs (suc i)) [
    | none ↦ none
    | some c ↦ measure measurand phase c
  ]

  get_elem?-length : (xs : List F) → get_elem? xs (length xs) ≡ none
  get_elem?-length [] = refl
  get_elem?-length (x ∷ xs) = get_elem?-length xs

  phase_sample-within :
      (xs : List F) (n phase : ℕ)
      → length xs ≡ n
      → phase < n
      → (x : F) × (get_elem? xs phase ≡ some x)
        × (phase_sample xs n phase
            ≡ some (true, record { value = Printed.float x; phase = some phase } ∷ []))
  unfolding phase_sample
  phase_sample-within xs n phase l h =
      let (x, e) = get_elem?_total xs phase (omega arith) in
      let within : leb phase n ≡ true = ground arith in (x, e, rw (phase_sample, within, e) refl)

  phase_sample-last : (xs : List F) (n : ℕ) → length xs ≡ n → phase_sample xs n n ≡ none
  unfolding phase_sample
  phase_sample-last xs n l =
      let within : leb n n ≡ true = ground arith in
      let out : get_elem? xs n ≡ none = rw⁻¹ l (get_elem?-length xs) in
      rw (phase_sample, within, out) refl

  -- The values of a measurand that is measured by phase.
  abbrev pub values : Measurand → Meter F → List F
  values current_import m = m.consumptions
  values power_active_import m = m.powers
  values voltage m = m.voltages
  values _ m = []

  measure-phase :
      (measurand : Measurand) (phase : ℕ) (c : Connector F)
      → IsByPhase measurand
      → IsSized c.meter
      → (measure measurand (some phase) c
          ≡ phase_sample (values measurand c.meter) c.meter.phases_count phase)
        × (length (values measurand c.meter) ≡ c.meter.phases_count)
  unfolding measure samples power_samples
  measure-phase current_import phase c h s = (refl, s.consumptions_size)
  measure-phase power_active_import phase c h s = (refl, s.powers_size)
  measure-phase voltage phase c h s = (refl, s.voltages_size)
  measure-phase current_offered phase c h s = elim h [ ]
  measure-phase power_offered phase c h s = elim h [ ]
  measure-phase energy_active_import_register phase c h s = elim h [ ]
  measure-phase power_factor phase c h s = elim h [ ]
  measure-phase other_measurand phase c h s = elim h [ ]

  -- Of a sized meter, a current, a power or a voltage that is asked for one of its phases is
  -- answered with the value of this phase.
  pub measure-within :
      (measurand : Measurand) (phase : ℕ) (c : Connector F)
      → IsByPhase measurand
      → IsSized c.meter
      → phase < c.meter.phases_count
      → (x : F) × (get_elem? (values measurand c.meter) phase ≡ some x)
        × (measure measurand (some phase) c
            ≡ some (true, record { value = Printed.float x; phase = some phase } ∷ []))
  measure-within measurand phase c h s lt =
      let (e, l) = measure-phase measurand phase c h s in
      let (x, ex, ep) =
        phase_sample-within (values measurand c.meter) c.meter.phases_count phase l lt in
      (x, ex, e ∙ ep)

  -- A current, a power or a voltage that is asked for the phase one past the last one of a sized
  -- meter passes the check of the phase and is read out of bounds.
  pub measure-out_of_bounds :
      (measurand : Measurand) (c : Connector F)
      → IsByPhase measurand
      → IsSized c.meter
      → measure measurand (some c.meter.phases_count) c ≡ none
  measure-out_of_bounds measurand c h s =
      let (e, l) = measure-phase measurand c.meter.phases_count c h s in
      e ∙ phase_sample-last (values measurand c.meter) c.meter.phases_count l
