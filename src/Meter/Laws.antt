-- ===== src/Meter/Laws.antt =====
-- The vectors of a meter: their sizes, and what a write leaves in them.

use open_ocpp_simu.Common.{
  ℕ, zero, suc, ◌+◌, ◌%◌, ◌≤◌, ◌<◌, ◌^◌, ◌≡◌, refl, ◌&&◌, some, List, [], ◌∷◌, arith, length,
  get_elem?, length-replicate, ltb, if◌then◌else◌,
}
use open_ocpp_simu.Connector.{ConnectorType, ac, dc}
use open_ocpp_simu.Float.{FloatOps}
use open_ocpp_simu.Meter.{
  Meter, new_meter, overwrite, set_voltages, set_consumptions, products, dc_powers, new_powers,
  phase_energy, energy_mwh, update,
}

-- Each vector has an entry for each phase, and a DC meter has a phase.
pub record IsSized {F : Type 0} (m : Meter F) : Type 0 where
  pub voltages_size : length m.voltages ≡ m.phases_count
  pub consumptions_size : length m.consumptions ≡ m.phases_count
  pub powers_size : length m.powers ≡ m.phases_count
  pub dc_phase : m.current_out_type ≡ dc → 0 < m.phases_count

length-overwrite :
    {F : Type 0} (n : ℕ) (olds vs : List F) → length (overwrite n olds vs) ≡ length olds
unfolding overwrite
length-overwrite zero olds vs = refl
length-overwrite (suc n) [] vs = refl
length-overwrite (suc n) (old ∷ olds) [] = refl
length-overwrite (suc n) (old ∷ olds) (v ∷ vs) = omega (arith, length-overwrite n olds vs)

get_elem?-overwrite :
    {F : Type 0} (n : ℕ) (olds vs : List F) (i : ℕ)
    → length olds ≡ n
    → get_elem? (overwrite n olds vs) i
      ≡ (if ltb i n && ltb i (length vs) then get_elem? vs i else get_elem? olds i)
unfolding overwrite
get_elem?-overwrite zero olds vs i h = ground arith
get_elem?-overwrite (suc n) [] vs i h = absurd (omega arith)
get_elem?-overwrite (suc n) (old ∷ olds) [] i h = ground arith
get_elem?-overwrite (suc n) (old ∷ olds) (v ∷ vs) zero h = ground arith
get_elem?-overwrite (suc n) (old ∷ olds) (v ∷ vs) (suc i) h =
    ground (arith, get_elem?-overwrite n olds vs i)

module _ {F : Type 0} ⦃f : FloatOps F⦄ where
  -- A new meter is sized, if a DC meter has a phase.
  pub new_meter-IsSized :
      (n : ℕ) (type : ConnectorType) → (type ≡ dc → 0 < n) → IsSized (new_meter {F = F} n type)
  unfolding new_meter
  new_meter-IsSized n type h = record {
    voltages_size = length-replicate n f.nought;
    consumptions_size = length-replicate n f.nought;
    powers_size = length-replicate n f.nought;
    dc_phase = h;
  }

  -- Entry i becomes the new value if both vectors have it, and the size stays.
  pub set_consumptions_lem :
      (m : Meter F) (cs : List F) (i : ℕ)
      → IsSized m
      → (get_elem? (set_consumptions m cs).consumptions i ≡ (
          if ltb i m.phases_count && ltb i (length cs)
          then get_elem? cs i
          else get_elem? m.consumptions i))
        × IsSized (set_consumptions m cs)
  unfolding set_consumptions
  set_consumptions_lem m cs i s = (
    get_elem?-overwrite m.phases_count m.consumptions cs i s.consumptions_size,
    ground (arith, length-overwrite m.phases_count m.consumptions cs),
  )

  pub set_voltages-IsSized : (m : Meter F) (vs : List F) → IsSized m → IsSized (set_voltages m vs)
  unfolding set_voltages
  set_voltages-IsSized m vs s = ground (arith, length-overwrite m.phases_count m.voltages vs)

  products_total :
      (n : ℕ) (ps vs cs : List F)
      → length ps ≡ n
      → length vs ≡ n
      → length cs ≡ n
      → (qs : List F) × (products n ps vs cs ≡ some qs) × (length qs ≡ n)
  unfolding products
  products_total zero ps vs cs hp hv hc = (ps, refl, hp)
  products_total (suc n) (p ∷ ps) (v ∷ vs) (c ∷ cs) hp hv hc =
      let (qs, e, l) = products_total n ps vs cs (omega arith) (omega arith) (omega arith) in
      (f.mul v c ∷ qs, rw e refl, omega arith)
  products_total (suc n) [] vs cs hp hv hc = absurd (omega arith)
  products_total (suc n) (p ∷ ps) [] cs hp hv hc = absurd (omega arith)
  products_total (suc n) (p ∷ ps) (v ∷ vs) [] hp hv hc = absurd (omega arith)

  products_entry :
      (n : ℕ) (ps vs cs qs : List F) (i : ℕ) (v c : F)
      → products n ps vs cs ≡ some qs
      → i < n
      → get_elem? vs i ≡ some v
      → get_elem? cs i ≡ some c
      → get_elem? qs i ≡ some (f.mul v c)
  unfolding products
  products_entry zero ps vs cs qs i v c e h hv hc = absurd (omega arith)
  products_entry (suc n) (p ∷ ps) (w ∷ vs) (d ∷ cs) qs zero v c e h hv hc = ground arith
  products_entry (suc n) (p ∷ ps) (w ∷ vs) (d ∷ cs) (q ∷ qs) (suc i) v c e h hv hc =
      ground (arith, products_entry n ps vs cs qs i v c)
  products_entry (suc n) (p ∷ ps) (w ∷ vs) (d ∷ cs) [] (suc i) v c e h hv hc = ground arith
  products_entry (suc n) [] vs cs qs i v c e h hv hc = cc
  products_entry (suc n) (p ∷ ps) [] cs qs i v c e h hv hc = cc
  products_entry (suc n) (p ∷ ps) (w ∷ vs) [] qs i v c e h hv hc = cc

  dc_powers_total :
      (ps cs : List F) (n : ℕ)
      → length ps ≡ n
      → length cs ≡ n
      → 0 < n
      → (qs : List F) × (dc_powers ps cs ≡ some qs) × (length qs ≡ n)
  unfolding dc_powers
  dc_powers_total (p ∷ ps) (c ∷ cs) n hp hc h = (c ∷ ps, refl, hp)
  dc_powers_total [] cs n hp hc h = absurd (omega arith)
  dc_powers_total (p ∷ ps) [] n hp hc h = absurd (omega arith)

  pub new_powers_total :
      (type : ConnectorType) (m : Meter F)
      → m.current_out_type ≡ type
      → IsSized m
      → (qs : List F) × (new_powers type m ≡ some qs) × (length qs ≡ m.phases_count)
  unfolding new_powers
  new_powers_total ac m e s =
      products_total m.phases_count m.powers m.voltages m.consumptions s.powers_size s.voltages_size
        s.consumptions_size
  new_powers_total dc m e s =
      dc_powers_total m.powers m.consumptions m.phases_count s.powers_size s.consumptions_size
        (s.dc_phase e)

  pub energy_mwh_total :
      (n : ℕ) (ps : List F) (acc : ℕ)
      → length ps ≡ n
      → acc < 2 ^ 32
      → (e : ℕ) × (energy_mwh n ps acc ≡ some e) × (e < 2 ^ 32)
  unfolding energy_mwh
  energy_mwh_total zero ps acc h b = (acc, refl, b)
  energy_mwh_total (suc n) [] acc h b = absurd (omega arith)
  energy_mwh_total (suc n) (p ∷ ps) acc h b =
      energy_mwh_total n ps ((acc + phase_energy (f.to_int64 p)) % 2 ^ 32) (omega arith)
        (omega arith)

  -- An update of a sized meter accesses no vector out of bounds, adds less than 2^32 mWh to the
  -- energy, and leaves all but the powers and the energy as it is, so the meter stays sized.
  pub update_total :
      (m : Meter F)
      → IsSized m
      → (t : Meter F) × (update m ≡ some t)
        × IsSized t
        × (m.energy ≤ t.energy)
        × (t.energy < m.energy + 2 ^ 32)
        × (t ≡ record m { powers = t.powers; energy = t.energy })
  unfolding update
  update_total m s =
      let (qs, eq, lq) = new_powers_total m.current_out_type m refl s in
      let (e, ee, be) = energy_mwh_total m.phases_count qs 0 lq (omega arith) in
      (
        record m { powers = qs; energy = m.energy + e },
        rw (eq, update) (rw ee refl),
        ground arith,
        omega arith,
        omega arith,
        refl,
      )

  pub update_powers :
      (m t : Meter F) → update m ≡ some t → new_powers m.current_out_type m ≡ some t.powers
  unfolding update
  update_powers m t e = ground arith

  -- After an update of an AC meter the power of a phase is its voltage times its current, and
  -- after an update of a DC meter the power of phase 0 is its consumption.
  pub update_lem :
      (m t : Meter F) (i : ℕ) (v c : F)
      → update m ≡ some t
      → i < m.phases_count
      → get_elem? m.voltages i ≡ some v
      → get_elem? m.consumptions i ≡ some c
      → (m.current_out_type ≡ ac → get_elem? t.powers i ≡ some (f.mul v c))
        × (m.current_out_type ≡ dc → i ≡ 0 → get_elem? t.powers i ≡ some c)
  unfolding new_powers dc_powers
  update_lem m t i v c e h hv hc = (
    λ ty.
        products_entry m.phases_count m.powers m.voltages m.consumptions t.powers i v c
          (rw ty at (update_powers m t e)) h hv hc,
    λ ty z. ground (arith, update_powers m t e),
  )
