-- ===== src/System/Kept.antt =====
-- What one step of a thread keeps of the connectors and of the vectors.
use mathlib.Core.Option
use mathlib.Core.Path.{subst}
use open_ocpp_simu.Common.{
  ℕ, zero, suc, ◌≡◌, refl, Option, none, some, List, [], ◌∷◌, length, arith, slot, modify_slot,
  modify_slot_inv, get_elem?, set, All, IsSlot, slot_total, modify_slot_total, ap, ◌≤◌,
}
use open_ocpp_simu.Float.{FloatOps}
use open_ocpp_simu.Meter.{Meter, update}
use open_ocpp_simu.Meter.Laws.{IsSized, update_total}
use open_ocpp_simu.Handler.Requests.{
  AvailabilityType, AvailabilityStatus, change_one, operative, inoperative,
  change_availability_requested,
}
use open_ocpp_simu.Sim.World.{World, Connector}
use open_ocpp_simu.Sim.Runs.{Fits}
use open_ocpp_simu.Sim.Totality.{Same}
use open_ocpp_simu.Sim.Later.{Later, AllLater, AllSized, Same-Later, AllLater-refl}
use open_ocpp_simu.Sim.Rounds.{AllFit}
use open_ocpp_simu.System.{update_meter}

-- The vectors that a connector's number indexes have the same sizes.
pub record SameLengths {F : Type 0} (w v : World F) : Type 0 where
  pub mqtt_size : length v.mqtt.connectors ≡ length w.mqtt.connectors
  pub start_size : length v.handler.remote_start_pending ≡ length w.handler.remote_start_pending
  pub stop_size : length v.handler.remote_stop_pending ≡ length w.handler.remote_stop_pending
  pub tag_size : length v.handler.remote_start_id_tags ≡ length w.handler.remote_start_id_tags

module _ {F : Type 0} where
  SameLengths-Fits : (id : ℕ) (w v : World F) → SameLengths w v → Fits id w → Fits id v
  SameLengths-Fits id w v h k = omega arith

  pub SameLengths-AllFit :
      (cs : List (Connector F)) (w v : World F) → SameLengths w v → AllFit cs w → AllFit cs v
  SameLengths-AllFit [] w v h all = tt
  SameLengths-AllFit (c ∷ cs) w v h all =
      (SameLengths-Fits c.id w v h all.0, SameLengths-AllFit cs w v h all.1)

  AllLater-set :
      (cs : List (Connector F)) (i : ℕ) (c d : Connector F)
      → get_elem? cs i ≡ some c
      → Later c d
      → AllLater cs (set cs i d)
  AllLater-set [] i c d e h = tt
  AllLater-set (b ∷ cs) zero c d e h =
      let same : c ≡ b = ground (arith, e) in
      (subst (λ (k : Connector F). Later k d) same h, AllLater-refl cs)
  AllLater-set (b ∷ cs) (suc i) c d e h = (Same-Later b b (refl, refl), AllLater-set cs i c d e h)

  AllLater-modify_slot :
      (cs ds : List (Connector F)) (id : ℕ) (g : Connector F → Connector F)
      → ((c : Connector F) → slot cs id ≡ some c → Later c (g c))
      → modify_slot cs id g ≡ some ds
      → AllLater cs ds
  unfolding modify_slot slot
  AllLater-modify_slot cs ds zero g h e = cc
  AllLater-modify_slot cs ds (suc i) g h e =
      let (c, r, w) = modify_slot_inv cs ds i g e in rw w (AllLater-set cs i c (g c) r (h c r))

  All-slot :
      (P : Connector F → Type 0) (cs : List (Connector F)) (id : ℕ) (c : Connector F)
      → All P cs
      → slot cs id ≡ some c
      → P c
  unfolding slot
  All-slot P cs zero c h e = cc
  All-slot P [] (suc i) c h e = cc
  All-slot P (b ∷ cs) (suc zero) c h e = let same : b ≡ c = ground (arith, e) in subst P same h.0
  All-slot P (b ∷ cs) (suc (suc i)) c h e = All-slot P cs (suc i) c h.1 e

  change_one-Same : (a : AvailabilityType) (c : Connector F) → Same c (change_one a c).1
  unfolding change_one
  change_one-Same inoperative c = ground arith
  change_one-Same operative c = (refl, refl)

  pub availability-AllLater :
      (id : ℕ) (a : AvailabilityType) (r : AvailabilityStatus) (cs ds : List (Connector F))
      → change_availability_requested id a cs ≡ some (r, ds)
      → AllLater cs ds
  unfolding change_availability_requested
  availability-AllLater zero a r cs ds e =
      let same : cs ≡ ds = ground (arith, e) in subst (AllLater cs) same (AllLater-refl cs)
  availability-AllLater (suc i) a r cs ds f =
      go (slot cs (suc i)) (modify_slot cs (suc i) (λ d. (change_one a d).1))
        (λ es.
          AllLater-modify_slot cs es (suc i) (λ d. (change_one a d).1)
            λ c _. Same-Later c (change_one a c).1 (change_one-Same a c))
        f
    where
      go :
          (o : Option (Connector F)) (p : Option (List (Connector F)))
          → ((es : List (Connector F)) → p ≡ some es → AllLater cs es)
          → elim o [
            | none ↦ none
            | some c ↦
                Option.map {B = AvailabilityStatus × List (Connector F)}
                  (λ es. ((change_one a c).0, es))
                  p
          ]
            ≡ some (r, ds)
          → AllLater cs ds
      go none p h e = cc
      go (some c) none h e = cc
      go (some c) (some es) h e =
          let same : es ≡ ds = ground (arith, e) in subst (AllLater cs) same (h es refl)

module _ {F : Type 0} ⦃f : FloatOps F⦄ where
  update-Later :
      (c : Connector F) (m : Meter F)
      → IsSized c.meter
      → update c.meter ≡ some m
      → Later c (record c { meter = m })
  update-Later c m s e =
      let (t, et, st, le, _, same) = update_total c.meter s in
      let w : t ≡ m = cc in
      let same_m : m ≡ record c.meter { powers = m.powers; energy = m.energy } =
        subst (λ (k : Meter F). k ≡ record c.meter { powers = k.powers; energy = k.energy }) w
          same in
      record {
        number = refl;
        phases = ap (λ (k : Meter F). k.phases_count) same_m;
        out_type = ap (λ (k : Meter F). k.current_out_type) same_m;
        energy = subst (λ (k : Meter F). c.meter.energy ≤ k.energy) w le;
        sized = λ _. subst (λ (k : Meter F). IsSized k) w st;
      }

  pub update_meter-AllLater :
      (id : ℕ) (cs ds : List (Connector F))
      → AllSized cs
      → update_meter id cs ≡ some ds
      → AllLater cs ds
  unfolding update_meter
  update_meter-AllLater id cs ds s = go (slot cs id) refl
    where
      measured :
          (c : Connector F)
          → slot cs id ≡ some c
          → (o : Option (Meter F)) → update c.meter ≡ o
          → elim o [ none ↦ none | some m ↦ modify_slot cs id (λ d. record d { meter = m }) ]
            ≡ some ds
          → AllLater cs ds
      measured c k none u e = cc
      measured c k (some m) u e =
          AllLater-modify_slot cs ds id (λ d. record d { meter = m })
            (λ d l.
              let same : c ≡ d = cc in
              subst (λ (b : Connector F). Later b (record b { meter = m })) same
                (update-Later c m (All-slot (λ b. IsSized b.meter) cs id c s k) u))
            e

      go :
          (o : Option (Connector F))
          → slot cs id ≡ o
          → elim o [
            | none ↦ none
            | some c ↦ elim (update c.meter) [
              | none ↦ none
              | some m ↦ modify_slot cs id (λ d. record d { meter = m })
            ]
          ]
            ≡ some ds
          → AllLater cs ds
      go none k e = cc
      go (some c) k e = measured c k (update c.meter) refl e

  -- The timer's callback for a connector with a number that is in use accesses nothing out of bounds.
  pub update_meter_total :
      (id : ℕ) (cs : List (Connector F))
      → IsSlot cs id
      → AllSized cs
      → (ds : List (Connector F)) × (update_meter id cs ≡ some ds)
  unfolding update_meter
  update_meter_total id cs k s =
      let (c, e) = slot_total cs id k in
      let (m, u, _, _, _, _) = update_total c.meter (All-slot (λ b. IsSized b.meter) cs id c s e) in
      let (ds, w, _) = modify_slot_total cs id (λ d. record d { meter = m }) k in
      (ds, rw (update_meter, e, u) w)
