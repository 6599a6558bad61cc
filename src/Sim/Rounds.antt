-- ===== src/Sim/Rounds.antt =====
-- An iteration of the control loop over all connectors always completes.
use open_ocpp_simu.Common.{
  Bool, true, false, ◌≡◌, refl, List, [], ◌∷◌, map, none, some, arith, All, slot_total,
  if◌then◌else◌,
}
use open_ocpp_simu.Ocpp.{
  ChargePointStatus, ChargePointStatus-discrete, available, preparing, charging, suspended_evse,
  suspended_ev, finishing, reserved, unavailable, faulted, StackCall, Stack,
}
use open_ocpp_simu.Float.{FloatOps}
use open_ocpp_simu.Mqtt.{update_data, copy_car_data}
use open_ocpp_simu.Sim.World.{World, Connector, M, ◌>>=◌, pure, get_connector_status, bind_eq}
use open_ocpp_simu.Sim.Runs.{
  Fits, SameShape, SameShape-refl, SameShape-trans, SameShape-Fits, Runs, Any, Runs-bind, Runs-pure,
  reset_id_tag-Runs,
}
use open_ocpp_simu.Sim.Totality.{Same, step_total}
use open_ocpp_simu.Sim.Later.{
  Later, AllLater, ids, Same-Later, Later-trans, AllLater-refl, AllLater-trans, ids-AllLater,
  AllLater-map, compute_consumption-Later,
}
use open_ocpp_simu.Sim.Setpoints.{
  Limits, apply_answer, get_setpoint, read_setpoints, limit_by_cable, total_connectors, scale,
  share, floor_setpoint, finish_setpoints, compute_setpoints, rate_unit,
}
use open_ocpp_simu.Sim.Consumption.{compute_consumption}
use open_ocpp_simu.Sim.Loop.{
  enter_status, refresh_status, for_each, run_connector, update_connectors, operate,
}

-- Every connector's number is within the vectors.
abbrev pub AllFit : {F : Type 0} → List (Connector F) → World F → Type 0
AllFit cs w = All (λ c. Fits c.id w) cs

-- The action returns, keeps the shape, and leaves the connectors at a later time.
abbrev pub Completes :
    {F : Type 0} → List (Connector F) → World F → M F (List (Connector F)) → Type 0
Completes {F} cs w m =
    (r : List (Connector F) × World F) × (m w ≡ some r) × SameShape w r.1 × AllLater cs r.0

module _ {F : Type 0} where
  pub AllFit-SameShape :
      (cs : List (Connector F)) (w v : World F) → SameShape w v → AllFit cs w → AllFit cs v
  AllFit-SameShape [] w v h all = tt
  AllFit-SameShape (c ∷ cs) w v h all =
      (SameShape-Fits c.id w v h all.0, AllFit-SameShape cs w v h all.1)

  pub AllFit-ids :
      (cs ds : List (Connector F)) (w : World F) → ids ds ≡ ids cs → AllFit cs w → AllFit ds w
  AllFit-ids [] [] w e all = tt
  AllFit-ids [] (d ∷ ds) w e all = cc
  AllFit-ids (c ∷ cs) [] w e all = cc
  AllFit-ids (c ∷ cs) (d ∷ ds) w e all =
      let same : d.id ≡ c.id = cc in (rw same all.0, AllFit-ids cs ds w (cc) all.1)

  pub AllFit-Later :
      (cs ds : List (Connector F)) (w v : World F)
      → AllLater cs ds
      → SameShape w v
      → AllFit cs w
      → AllFit ds v
  AllFit-Later cs ds w v h k fits =
      AllFit-ids cs ds v (ids-AllLater cs ds h) (AllFit-SameShape cs w v k fits)

module _ {F : Type 0} ⦃f : FloatOps F⦄ where
  for_each_total :
      (body : Connector F → M F (Connector F))
      → ((c : Connector F) → Runs c.id (Later c) (body c))
      → (cs : List (Connector F)) (w : World F) → AllFit cs w
      → Completes cs w (for_each body cs)
  unfolding for_each
  for_each_total body h [] w fits = (([], w), refl, SameShape-refl w, tt)
  for_each_total body h (c ∷ cs) w fits =
      let (r, er, sr, ir) = h c w fits.0 in
      let (t, et, st, it) = for_each_total body h cs r.1 (AllFit-SameShape cs w r.1 sr fits.1) in
      let rest : (for_each body cs >>= λ ds. pure (r.0 ∷ ds)) r.1 ≡ some (r.0 ∷ t.0, t.1) =
        bind_eq (for_each body cs) _ r.1 t et in
      ((r.0 ∷ t.0, t.1), rw (er, ◌>>=◌) rest, SameShape-trans w r.1 t.1 sr st, (ir, it))

  entered_status : (c d : Connector F) → Same c d → Runs {F = F} c.id (Later c) (pure d)
  entered_status c d h = Runs-pure {F = F} c.id (Later c) d (Same-Later c d h)

  enter_status-Runs :
      (s : Stack F) (st : ChargePointStatus) (c : Connector F)
      → Runs c.id (Later c) (enter_status s st c)
  unfolding enter_status
  enter_status-Runs s available c =
      Runs-bind c.id Any (Later c) _ _ (reset_id_tag-Runs c.id)
        λ _ _. entered_status c _ (refl, refl)
  enter_status-Runs s preparing c =
      λ w fits. (_, refl, SameShape-refl w, Same-Later c _ (refl, refl))
  enter_status-Runs s charging c = entered_status c _ (refl, refl)
  enter_status-Runs s suspended_evse c = entered_status c _ (refl, refl)
  enter_status-Runs s suspended_ev c = entered_status c _ (refl, refl)
  enter_status-Runs s finishing c = entered_status c _ (refl, refl)
  enter_status-Runs s reserved c = entered_status c _ (refl, refl)
  enter_status-Runs s unavailable c = entered_status c _ (refl, refl)
  enter_status-Runs s faulted c = entered_status c _ (refl, refl)

  refresh_status-Runs : (s : Stack F) (c : Connector F) → Runs c.id (Later c) (refresh_status s c)
  unfolding refresh_status get_connector_status
  refresh_status-Runs s c =
      Runs-bind c.id Any (Later c) _ _
        (λ w fits. (
          (
            s.connector_status w.calls c.id,
            record w { calls = StackCall.get_connector_status c.id ∷ w.calls },
          ),
          refl,
          ground arith,
          tt,
        ))
        λ st _. entered (ChargePointStatus-discrete st c.status)
    where
      entered :
          {st : ChargePointStatus} (b : Dec (st ≡ c.status))
          → Runs {F = F} c.id (Later c) (elim b [ yes _ ↦ pure c | no _ ↦ enter_status s st c ])
      entered (yes _) = entered_status c c (refl, refl)
      entered {st} (no _) = enter_status-Runs s st c

  run_connector-Runs : (s : Stack F) (c : Connector F) → Runs c.id (Later c) (run_connector s c)
  unfolding run_connector
  run_connector-Runs s c = Runs-bind c.id (Same c) (Later c) _ _ (step_total s c) λ d q.
      Runs-pure c.id (Later c) (compute_consumption d)
        (Later-trans c d (compute_consumption d) (Same-Later c d q) (compute_consumption-Later d))

  read_setpoints_total :
      (s : Stack F) (cs : List (Connector F)) (l : Limits F) (w : World F)
      → (r : (List (Connector F) × Limits F) × World F) × (read_setpoints s cs l w ≡ some r)
        × SameShape w r.1
        × AllLater cs r.0.0
  unfolding read_setpoints get_setpoint apply_answer
  read_setpoints_total s [] l w = ((([], l), w), refl, SameShape-refl w, tt)
  read_setpoints_total s (c ∷ cs) l w =
      let unit = rate_unit c.meter.current_out_type in
      let a = s.setpoints w.calls c.id l.charge_point_setpoint l.connector_setpoint unit in
      let v : World F = record w { calls = StackCall.get_setpoint c.id unit ∷ w.calls } in
      let q = apply_answer a l c in
      let (r, er, sr, ir) = read_setpoints_total s cs q.1 v in
      (
        ((q.0 ∷ r.0.0, r.0.1), r.1),
        bind_eq (read_setpoints s cs q.1) _ v r er,
        ground arith,
        (Same-Later c q.0 (refl, refl), ir),
      )

  share-AllLater : (whole : F) (cs : List (Connector F)) → AllLater cs (share whole cs)
  unfolding share scale
  share-AllLater whole cs = go (f.lt whole (total_connectors f.nought cs))
    where
      go :
          (b : Bool)
          → AllLater cs
              (if b then map (scale (f.div whole (total_connectors f.nought cs))) cs else cs)
      go true = AllLater-map _ (λ c. Same-Later c _ (refl, refl)) cs
      go false = AllLater-refl cs

  finish_setpoints-AllLater :
      (whole : F) (cs : List (Connector F)) → AllLater cs (finish_setpoints whole cs)
  unfolding finish_setpoints limit_by_cable floor_setpoint
  finish_setpoints-AllLater whole cs =
      let ds = map limit_by_cable cs in
      AllLater-trans cs (share whole ds) (map floor_setpoint (share whole ds))
        (AllLater-trans cs ds (share whole ds)
          (AllLater-map limit_by_cable (λ c. Same-Later c _ (refl, refl)) cs)
          (share-AllLater whole ds))
        (AllLater-map floor_setpoint (λ c. Same-Later c _ (refl, refl)) (share whole ds))

  compute_setpoints_total :
      (max : F) (s : Stack F) (cs : List (Connector F)) (w : World F)
      → Completes cs w (compute_setpoints max s cs)
  unfolding compute_setpoints
  compute_setpoints_total max s cs w =
      let l : Limits F = record {
        whole = max;
        charge_point_setpoint = none;
        connector_setpoint = none;
      } in
      let (r, er, sr, ir) = read_setpoints_total s cs l w in
      let ds = finish_setpoints r.0.1.whole r.0.0 in
      (
        (ds, r.1),
        bind_eq (read_setpoints s cs l) _ w r er,
        sr,
        AllLater-trans cs r.0.0 ds ir (finish_setpoints-AllLater r.0.1.whole r.0.0),
      )

  update_data_total :
      (cs : List (Connector F)) (w : World F)
      → AllFit cs w
      → (ds : List (Connector F)) × (update_data w.mqtt cs ≡ some ds) × AllLater cs ds
  unfolding update_data copy_car_data
  update_data_total [] w fits = ([], refl, tt)
  update_data_total (c ∷ cs) w fits =
      let (a, ea) = slot_total w.mqtt.connectors c.id fits.0.mqtt_slot in
      let (ds, e, i) = update_data_total cs w fits.1 in
      (
        copy_car_data a c ∷ ds,
        rw (update_data, ea, e) refl,
        (Same-Later c (copy_car_data a c) (refl, refl), i),
      )

  -- An iteration over connectors whose numbers are within every vector that it indexes always
  -- completes. It keeps the numbers of the connectors, which are within every vector again, so the
  -- next iteration completes too, it keeps the flags that end the loop, and it leaves every meter sized that was, with
  -- its phases and an energy that is not less.
  pub operate_total :
      (max : F) (s : Stack F) (cs : List (Connector F)) (w : World F)
      → AllFit cs w
      → (r : List (Connector F) × World F) × (operate max s cs w ≡ some r)
        × SameShape w r.1
        × AllLater cs r.0
        × AllFit r.0 r.1
  unfolding operate update_connectors
  operate_total max s cs w fits =
      let (r, er, sr, ir) = for_each_total (refresh_status s) (refresh_status-Runs s) cs w fits in
      let (t, et, st, it) = compute_setpoints_total max s r.0 r.1 in
      let shape_t = SameShape-trans w r.1 t.1 sr st in
      let later_t = AllLater-trans cs r.0 t.0 ir it in
      let fits_t = AllFit-Later cs t.0 w t.1 later_t shape_t fits in
      let (u, eu, iu) = update_data_total t.0 t.1 fits_t in
      let later_u = AllLater-trans cs t.0 u later_t iu in
      let (v, ev, sv, iv) =
        for_each_total (run_connector s) (run_connector-Runs s) u t.1
          (AllFit-Later cs u w t.1 later_u shape_t fits) in
      let shape_v = SameShape-trans w t.1 v.1 shape_t sv in
      let later_v = AllLater-trans cs u v.0 later_u iv in
      (
        v,
        rw (◌>>=◌, er, et, eu) ev,
        shape_v,
        later_v,
        AllFit-Later cs v.0 w v.1 later_v shape_v fits,
      )
