-- ===== src/Meter.antt =====
-- src/chargepoint/MeterSimulator.cpp: voltages, consumptions, powers and energy of one connector.
-- An access outside a vector is `none`. The mutex makes each method one step.
pub mod Laws
pub mod Energy
use mathlib.Core.Option
use open_ocpp_simu.Common.{
  ℕ, zero, suc, ◌+◌, ◌-◌, ◌*◌, ◌/◌, ◌%◌, ◌^◌, Option, none, some, List, [], ◌∷◌, ℤ, pos, negsuc,
  replicate, length,
}
use open_ocpp_simu.Connector.{ConnectorType, ac, dc}
use open_ocpp_simu.Float.{FloatOps}

-- Milliseconds.
abbrev pub update_period : ℕ
update_period = 500

pub record Meter (F : Type 0) : Type 0 where
  pub phases_count : ℕ
  pub voltages : List F
  pub consumptions : List F
  pub powers : List F
  -- in mWh
  pub energy : ℕ
  -- `none` until it is set: the constructor leaves it uninitialized
  pub power_factor : Option F
  pub current_out_type : ConnectorType

-- `static_cast<unsigned int>(p * UPDATE_PERIOD.count() / 3600ll)` of an `int64_t` p.
-- The division is towards zero, and the cast of a negative number wraps.
-- The product is one of numbers without bounds.
unfoldable pub phase_energy : ℤ → ℕ
phase_energy (pos n) = n * update_period / 3600 % 2 ^ 32
phase_energy (negsuc n) = (2 ^ 32 - suc n * update_period / 3600 % 2 ^ 32) % 2 ^ 32

-- The loop of `setVoltages` and `setConsumptions`, over the phases left.
unfoldable pub overwrite : {F : Type 0} → ℕ → List F → List F → List F
overwrite (suc n) (old ∷ olds) (v ∷ vs) = v ∷ overwrite n olds vs
overwrite _ olds _ = olds

module _ {F : Type 0} ⦃f : FloatOps F⦄ where
  unfoldable pub new_meter : ℕ → ConnectorType → Meter F
  new_meter phases type = record {
    phases_count = phases;
    voltages = replicate phases f.nought;
    consumptions = replicate phases f.nought;
    powers = replicate phases f.nought;
    energy = 0;
    power_factor = none;
    current_out_type = type;
  }

  -- The powers of the AC branch of `update`, over the phases left.
  unfoldable pub products : ℕ → List F → List F → List F → Option (List F)
  products zero ps vs cs = some ps
  products (suc n) (p ∷ ps) (v ∷ vs) (c ∷ cs) =
      Option.map (λ rest. f.mul v c ∷ rest) (products n ps vs cs)
  products (suc n) _ _ _ = none

  -- The DC branch: the consumption is a power.
  unfoldable pub dc_powers : List F → List F → Option (List F)
  dc_powers (p ∷ ps) (c ∷ cs) = some (c ∷ ps)
  dc_powers _ _ = none

  unfoldable pub new_powers : ConnectorType → Meter F → Option (List F)
  new_powers ac m = products m.phases_count m.powers m.voltages m.consumptions
  new_powers dc m = dc_powers m.powers m.consumptions

  -- The energy loop, on an `unsigned int`.
  unfoldable pub energy_mwh : ℕ → List F → ℕ → Option ℕ
  energy_mwh zero ps acc = some acc
  energy_mwh (suc n) [] acc = none
  energy_mwh (suc n) (p ∷ ps) acc = energy_mwh n ps ((acc + phase_energy (f.to_int64 p)) % 2 ^ 32)

  -- `m_energy` is an `int64_t`. Each update adds less than 2^32 to it, so it does not overflow within
  -- 2^31 updates, about 34 years, and is not wrapped here.
  unfoldable pub update : Meter F → Option (Meter F)
  update m = elim (new_powers m.current_out_type m) [
    | none ↦ none
    | some ps ↦
        Option.map (λ e. record m { powers = ps; energy = m.energy + e })
          (energy_mwh m.phases_count ps 0)
  ]

unfoldable pub set_voltages : {F : Type 0} → Meter F → List F → Meter F
unfolding overwrite
set_voltages m vs = record m { voltages = overwrite m.phases_count m.voltages vs }

unfoldable pub set_consumptions : {F : Type 0} → Meter F → List F → Meter F
unfolding overwrite
set_consumptions m cs = record m { consumptions = overwrite m.phases_count m.consumptions cs }

unfoldable pub set_power_factor : {F : Type 0} → Meter F → F → Meter F
set_power_factor m pf = record m { power_factor = some pf }

-- In Wh.
unfoldable pub get_energy : {F : Type 0} → Meter F → ℕ
get_energy m = m.energy / 1000
