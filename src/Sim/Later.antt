-- ===== src/Sim/Later.antt =====
-- What the control loop and the other threads leave of a connector: its number, and its meter but for what is measured.
use mathlib.Core.Path.{subst}
use open_ocpp_simu.Common.{
  ℕ, ◌≤◌, ◌≡◌, refl, sym, ap, ◌∙◌, List, [], ◌∷◌, map, arith, Pairwise, All,
}
use open_ocpp_simu.Meter.{Meter, set_consumptions}
use open_ocpp_simu.Meter.Laws.{IsSized}
use open_ocpp_simu.Float.{FloatOps}
use open_ocpp_simu.Meter.Laws.{set_consumptions_lem}
use open_ocpp_simu.Sim.World.{Connector}
use open_ocpp_simu.Sim.Consumption.{compute_consumption}
use open_ocpp_simu.Sim.Totality.{Same}

-- The second is the first connector at a later time.
pub record Later {F : Type 0} (c d : Connector F) : Type 0 where
  pub number : d.id ≡ c.id
  pub phases : d.meter.phases_count ≡ c.meter.phases_count
  pub out_type : d.meter.current_out_type ≡ c.meter.current_out_type
  pub energy : c.meter.energy ≤ d.meter.energy
  pub sized : IsSized c.meter → IsSized d.meter

abbrev pub AllLater : {F : Type 0} → List (Connector F) → List (Connector F) → Type 0
AllLater cs ds = Pairwise Later cs ds

abbrev pub AllSized : {F : Type 0} → List (Connector F) → Type 0
AllSized cs = All (λ c. IsSized c.meter) cs

abbrev pub ids : {F : Type 0} → List (Connector F) → List ℕ
ids cs = map (λ c. c.id) cs

module _ {F : Type 0} where
  pub Same-Later : (c d : Connector F) → Same c d → Later c d
  Same-Later c d (i, m) = record {
    number = i;
    phases = ap (λ (k : Meter F). k.phases_count) m;
    out_type = ap (λ (k : Meter F). k.current_out_type) m;
    energy = omega (arith, ap (λ (k : Meter F). k.energy) m);
    sized = subst (λ (k : Meter F). IsSized k) (sym m);
  }

  pub Later-trans : (c d e : Connector F) → Later c d → Later d e → Later c e
  Later-trans c d e h k = record {
    number = k.number ∙ h.number;
    phases = k.phases ∙ h.phases;
    out_type = k.out_type ∙ h.out_type;
    energy = omega (arith, h.energy, k.energy);
    sized = λ s. k.sized (h.sized s);
  }

  pub AllLater-refl : (cs : List (Connector F)) → AllLater cs cs
  AllLater-refl [] = tt
  AllLater-refl (c ∷ cs) = (Same-Later c c (refl, refl), AllLater-refl cs)

  pub AllLater-trans :
      (cs ds es : List (Connector F)) → AllLater cs ds → AllLater ds es → AllLater cs es
  AllLater-trans [] [] [] h k = tt
  AllLater-trans (c ∷ cs) (d ∷ ds) (e ∷ es) h k =
      (Later-trans c d e h.0 k.0, AllLater-trans cs ds es h.1 k.1)
  AllLater-trans [] [] (e ∷ es) h k = k
  AllLater-trans [] (d ∷ ds) es h k = elim h [ ]
  AllLater-trans (c ∷ cs) [] es h k = elim h [ ]
  AllLater-trans (c ∷ cs) (d ∷ ds) [] h k = elim k [ ]

  pub ids-AllLater : (cs ds : List (Connector F)) → AllLater cs ds → ids ds ≡ ids cs
  ids-AllLater [] [] h = refl
  ids-AllLater (c ∷ cs) (d ∷ ds) h = let k = ids-AllLater cs ds h.1 in let i = h.0.number in cc
  ids-AllLater [] (d ∷ ds) h = elim h [ ]
  ids-AllLater (c ∷ cs) [] h = elim h [ ]

  pub AllSized-AllLater : (cs ds : List (Connector F)) → AllLater cs ds → AllSized cs → AllSized ds
  AllSized-AllLater [] [] h s = tt
  AllSized-AllLater (c ∷ cs) (d ∷ ds) h s = (h.0.sized s.0, AllSized-AllLater cs ds h.1 s.1)
  AllSized-AllLater [] (d ∷ ds) h s = elim h [ ]
  AllSized-AllLater (c ∷ cs) [] h s = elim h [ ]

  pub AllLater-map :
      (g : Connector F → Connector F)
      → ((c : Connector F) → Later c (g c))
      → (cs : List (Connector F)) → AllLater cs (map g cs)
  AllLater-map g h [] = tt
  AllLater-map g h (c ∷ cs) = (h c, AllLater-map g h cs)

module _ {F : Type 0} ⦃f : FloatOps F⦄ where
  pub compute_consumption-Later : (c : Connector F) → Later c (compute_consumption c)
  unfolding compute_consumption set_consumptions
  compute_consumption-Later c = record {
    number = refl;
    phases = refl;
    out_type = refl;
    energy = omega arith;
    sized = λ s. (set_consumptions_lem c.meter _ 0 s).1;
  }
