-- ===== src/Meter/Energy.antt =====
-- The energy register of a meter over its periodic updates.

use open_ocpp_simu.Common.{
  ℕ, zero, suc, ◌+◌, ◌-◌, ◌*◌, ◌/◌, ◌%◌, ◌^◌, ◌≤◌, ◌<◌, ◌≡◌, refl, ap, ◌∙◌, Option, none, some,
  List, [], ◌∷◌, map, arith, length, pos, negsuc,
}
use open_ocpp_simu.Connector.{ConnectorType, ac, dc}
use open_ocpp_simu.Float.{FloatOps}
use open_ocpp_simu.Meter.{
  Meter, update_period, phase_energy, new_powers, products, dc_powers, energy_mwh, update,
}
use open_ocpp_simu.Meter.Laws.{IsSized, update_total}

-- The energy in mWh that phases of these whole watts take in one period.
abbrev pub period_energy : List ℕ → ℕ
period_energy [] = 0
period_energy (w ∷ ws) = w * update_period / 3600 + period_energy ws

step :
    (acc w : ℕ)
    → acc + w * update_period / 3600 < 2 ^ 32
    → (acc + w * update_period / 3600 % 2 ^ 32) % 2 ^ 32 ≡ acc + w * update_period / 3600
step acc w h = omega arith

phase_energy_negative :
    (k : ℕ)
    → 8 ≤ suc k
    → suc k < 2 ^ 32
    → phase_energy (negsuc k) ≡ 2 ^ 32 - suc k * update_period / 3600
unfolding phase_energy
phase_energy_negative k lo hi = omega arith

module _ {F : Type 0} ⦃f : FloatOps F⦄ where
  energy_mwh-period_energy :
      (ps : List F) (ws : List ℕ) (n acc : ℕ)
      → length ps ≡ n
      → map f.to_int64 ps ≡ map pos ws
      → acc + period_energy ws < 2 ^ 32
      → energy_mwh n ps acc ≡ some (acc + period_energy ws)
  unfolding energy_mwh phase_energy
  energy_mwh-period_energy [] [] zero acc l e h = ap some (omega arith)
  energy_mwh-period_energy (p ∷ ps) (w ∷ ws) (suc n) acc l e h =
      let head : f.to_int64 p ≡ pos w = ground arith in
      let tail : map f.to_int64 ps ≡ map pos ws = ground arith in
      rw head (
        rw (step acc w (omega arith)) (
          energy_mwh-period_energy ps ws n (acc + w * update_period / 3600) (omega arith) tail
            (omega arith)
          ∙ ap some (omega arith)))
  energy_mwh-period_energy [] [] (suc n) acc l e h = absurd (omega arith)
  energy_mwh-period_energy [] (w ∷ ws) n acc l e h = ground arith
  energy_mwh-period_energy (p ∷ ps) [] n acc l e h = ground arith
  energy_mwh-period_energy (p ∷ ps) (w ∷ ws) zero acc l e h = absurd (omega arith)

  -- One update of a sized meter whose new powers are these whole watts, none negative, adds the
  -- energy of one period, if that is below 2^32 mWh.
  pub energy-update :
      (m : Meter F) (qs : List F) (ws : List ℕ)
      → new_powers m.current_out_type m ≡ some qs
      → length qs ≡ m.phases_count
      → map f.to_int64 qs ≡ map pos ws
      → period_energy ws < 2 ^ 32
      → update m ≡ some (record m { powers = qs; energy = m.energy + period_energy ws })
  unfolding update
  energy-update m qs ws e l w h =
      rw (e, update)
        (rw (energy_mwh-period_energy qs ws m.phases_count 0 l w (omega arith))
          (ap (λ (x : ℕ). some (record m { powers = qs; energy = m.energy + x })) (omega arith)))

  products_again :
      (n : ℕ) (ps vs cs qs : List F) → products n ps vs cs ≡ some qs → products n qs vs cs ≡ some qs
  unfolding products
  products_again zero ps vs cs qs e = refl
  products_again (suc n) (p ∷ ps) (v ∷ vs) (c ∷ cs) (q ∷ qs) e =
      ground (arith, products_again n ps vs cs qs)
  products_again (suc n) (p ∷ ps) (v ∷ vs) (c ∷ cs) [] e = ground arith
  products_again (suc n) [] vs cs qs e = cc
  products_again (suc n) (p ∷ ps) [] cs qs e = cc
  products_again (suc n) (p ∷ ps) (v ∷ vs) [] qs e = cc

  -- The powers depend on the voltages and the consumptions only.
  new_powers_again :
      (type : ConnectorType) (m : Meter F) (qs : List F) (x : ℕ)
      → new_powers type m ≡ some qs
      → new_powers type (record m { powers = qs; energy = x }) ≡ some qs
  unfolding new_powers dc_powers
  new_powers_again ac m qs x e =
      products_again m.phases_count m.powers m.voltages m.consumptions qs e
  new_powers_again dc m qs x e = ground arith

  -- n periods, with no change of the voltages and the consumptions between them.
  pub updates : ℕ → Meter F → Option (Meter F)
  updates zero m = some m
  updates (suc n) m = elim (update m) [ none ↦ none | some t ↦ updates n t ]

  -- With constant consumptions the register of a meter with one power for each phase counts n
  -- times the energy of one period after n periods, if the new powers are whole watts that are
  -- not negative and the energy of one period is below 2^32 mWh.
  pub energy-updates :
      (n : ℕ) (m : Meter F) (qs : List F) (ws : List ℕ)
      → new_powers m.current_out_type m ≡ some qs
      → length qs ≡ m.phases_count
      → map f.to_int64 qs ≡ map pos ws
      → period_energy ws < 2 ^ 32
      → (t : Meter F) × (updates n m ≡ some t) × (t.energy ≡ m.energy + n * period_energy ws)
  unfolding updates
  energy-updates zero m qs ws e l w h = (m, refl, omega arith)
  energy-updates (suc n) m qs ws e l w h =
      let u : Meter F = record m { powers = qs; energy = m.energy + period_energy ws } in
      let again = new_powers_again m.current_out_type m qs (m.energy + period_energy ws) e in
      let (t, et, ee) = energy-updates n u qs ws again l w h in
      (t, rw (energy-update m qs ws e l w h, updates) et, omega arith)

  -- All n updates of a sized meter succeed and leave it sized. The register never falls, and they
  -- add at most n * 2^32 mWh.
  pub energy-bounded :
      (n : ℕ) (m : Meter F)
      → IsSized m
      → (t : Meter F) × (updates n m ≡ some t)
        × IsSized t
        × (m.energy ≤ t.energy)
        × (t.energy ≤ m.energy + n * 2 ^ 32)
  unfolding updates
  energy-bounded zero m s = (m, refl, s, omega arith, omega arith)
  energy-bounded (suc n) m s =
      let (u, eu, su, lo, hi, _) = update_total m s in
      let (t, et, st, lo', hi') = energy-bounded n u su in
      (t, rw (eu, updates) et, st, omega arith, omega arith)

  -- The one phase of a DC meter that takes -(k + 1) W, from -8 W down to above -2^32 W, makes the
  -- register jump by almost 2^32 mWh: the negative energy is cast to an unsigned number.
  pub energy-update_negative :
      (m : Meter F) (c p : F) (k : ℕ)
      → m.current_out_type ≡ dc
      → m.phases_count ≡ 1
      → m.consumptions ≡ c ∷ []
      → m.powers ≡ p ∷ []
      → f.to_int64 c ≡ negsuc k
      → 8 ≤ suc k
      → suc k < 2 ^ 32
      → update m
        ≡ some (record m {
          powers = c ∷ [];
          energy = m.energy + (2 ^ 32 - suc k * update_period / 3600);
        })
  unfolding update new_powers dc_powers energy_mwh
  energy-update_negative m c p k ty n ec ep neg lo hi =
      ground (arith, phase_energy_negative k lo hi)
