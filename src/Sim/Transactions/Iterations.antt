-- ===== src/Sim/Transactions/Iterations.antt =====
-- The iterations of the control loop keep the starts and stops of every connector alternating.
use mathlib.Core.Option
use mathlib.Core.Path.{subst}
use open_ocpp_simu.Common.{
  ℕ, ◌≡◌, ◌≢◌, refl, sym, ◌∙◌, Option, none, some, List, [], ◌∷◌, arith, All, Pairwise, slot,
}
use open_ocpp_simu.Ocpp.{Calls, Stack}
use open_ocpp_simu.Float.{FloatOps}
use open_ocpp_simu.Connector.{ConnectorData}
use open_ocpp_simu.Mqtt.{Mqtt, update_data, copy_car_data}
use open_ocpp_simu.Sim.World.{World, Connector, bind_inv}
use open_ocpp_simu.Sim.Step.{step}
use open_ocpp_simu.Sim.Setpoints.{Limits, read_setpoints, finish_setpoints, compute_setpoints}
use open_ocpp_simu.Sim.Later.{ids}
use open_ocpp_simu.Sim.Loop.{refresh_status, for_each, run_connector, update_connectors, operate}
use open_ocpp_simu.Sim.Transactions.{IsConsistent}
use open_ocpp_simu.Sim.Transactions.Quiet.{Quiet-trans, Quiet-IsConsistent}
use open_ocpp_simu.Sim.Transactions.Passes.{step-Quiet, step-IsConsistent}
use open_ocpp_simu.Sim.Transactions.Refresh.{
  IsReflecting, Distinct, Tells, QuietAll, SameStatus, Limited, Quiet-Tells, refresh_all_lem,
  SameStatus-Tells, SameStatus-ids, SameStatus-trans, read_setpoints_lem,
  finish_setpoints-SameStatus,
}

module _ {F : Type 0} ⦃f : FloatOps F⦄ (s : Stack F) where
  compute_setpoints_lem :
      (max : F) (cs : List (Connector F)) (w : World F) (r : List (Connector F) × World F)
      → compute_setpoints max s cs w ≡ some r
      → Limited s cs w r.0 r.1
  unfolding compute_setpoints
  compute_setpoints_lem max cs w r e =
      let l : Limits F = record {
        whole = max;
        charge_point_setpoint = none;
        connector_setpoint = none;
      } in
      let (q, eq, k) = bind_inv (read_setpoints s cs l) _ w e in
      let (p, quiet) = read_setpoints_lem s cs l w q eq in
      let ds = finish_setpoints q.0.1.whole q.0.0 in
      let same : (ds, q.1) ≡ r = ground (arith, k) in
      subst (λ (b : List (Connector F) × World F). Limited s cs w b.0 b.1) same
        (SameStatus-trans s cs q.0.0 ds p (finish_setpoints-SameStatus s q.0.1.whole q.0.0), quiet)

  update_data_lem :
      (m : Mqtt F) (cs ds : List (Connector F))
      → update_data m cs ≡ some ds
      → Pairwise (SameStatus s) cs ds
  unfolding update_data copy_car_data
  update_data_lem m [] ds e =
      let eq : [] ≡ ds = ground (arith, e) in subst (Pairwise (SameStatus s) []) eq tt
  update_data_lem m (c ∷ cs) ds e =
      go (slot m.connectors c.id) (update_data m cs) (update_data_lem m cs) e
    where
      go :
          (o : Option (ConnectorData F (Unit {0}))) (p : Option (List (Connector F)))
          → ((es : List (Connector F)) → p ≡ some es → Pairwise (SameStatus s) cs es)
          → elim o [ none ↦ none | some from ↦ Option.map (λ rest. copy_car_data from c ∷ rest) p ]
            ≡ some ds
          → Pairwise (SameStatus s) (c ∷ cs) ds
      go none p h e = cc
      go (some a) none h e = cc
      go (some a) (some es) h e =
          let eq : copy_car_data a c ∷ es ≡ ds = ground (arith, e) in
          subst (Pairwise (SameStatus s) (c ∷ cs)) eq ((refl, refl), h es refl)

  update_connectors_lem :
      (cs : List (Connector F)) (w : World F) (r : List (Connector F) × World F)
      → update_connectors cs w ≡ some r
      → Limited s cs w r.0 r.1
  unfolding update_connectors
  update_connectors_lem cs w r e = go (update_data w.mqtt cs) (update_data_lem w.mqtt cs) e
    where
      go :
          (o : Option (List (Connector F)))
          → ((es : List (Connector F)) → o ≡ some es → Pairwise (SameStatus s) cs es)
          → elim o [ none ↦ none | some ds ↦ some (ds, w) ] ≡ some r
          → Limited s cs w r.0 r.1
      go none h e = cc
      go (some es) h e =
          let eq : (es, w) ≡ r = ground (arith, e) in
          subst (λ (b : List (Connector F) × World F). Limited s cs w b.0 b.1) eq
            (h es refl, λ id. (refl, refl, λ a. a))

  abbrev pub AllConsistent : Calls → Type 0
  AllConsistent calls = (id : ℕ) → IsConsistent s id calls

  -- The other connectors' statuses still tell after a pass.
  others_tell :
      (c d : Connector F) (cs : List (Connector F)) (w v : World F)
      → step s c w ≡ some (d, v)
      → All (λ (j : ℕ). j ≢ c.id) (ids cs)
      → All (Tells s w.calls) cs
      → All (Tells s v.calls) cs
  others_tell c d [] w v e n h = tt
  others_tell c d (b ∷ cs) w v e n h =
      (h.0 ∙ sym (step-Quiet s c w v b.id d n.0 e).1, others_tell c d cs w v e n.1 h.1)

  run_all_lem :
      (cs : List (Connector F)) (w : World F) (r : List (Connector F) × World F)
      → for_each (run_connector s) cs w ≡ some r
      → Distinct (ids cs)
      → All (Tells s w.calls) cs
      → AllConsistent w.calls
      → AllConsistent r.1.calls
  unfolding for_each run_connector
  run_all_lem [] w r e n t h =
      let eq : ([], w) ≡ r = ground (arith, e) in
      subst (λ (b : List (Connector F) × World F). AllConsistent b.1.calls) eq h
  run_all_lem (c ∷ cs) w r e n t h =
      let (q, eq, g) = bind_inv (run_connector s c) _ w e in
      let (p, ep, k) = bind_inv (step s c) _ w eq in
      let same : p.1 ≡ q.1 = ground (arith, k) in
      let (u, eu, l) = bind_inv (for_each (run_connector s) cs) _ q.1 g in
      let last : u.1 ≡ r.1 = ground (arith, l) in
      let own = t.0 ∙ (h c.id).1 in
      let after : AllConsistent p.1.calls =
        λ id. step-IsConsistent s c w p.1 id p.0 ep (sym own) (h id) in
      let rest = others_tell c p.0 cs w p.1 ep n.0 t.1 in
      subst (λ (b : World F). AllConsistent b.calls) last
        (run_all_lem cs q.1 u eu n.1 (subst (λ (b : World F). All (Tells s b.calls) cs) same rest)
          (subst (λ (b : World F). AllConsistent b.calls) same after))

  QuietAll-AllConsistent :
      (old new : Calls) → QuietAll s old new → AllConsistent old → AllConsistent new
  QuietAll-AllConsistent old new q h = λ id. Quiet-IsConsistent s id old new (q id) (h id)

  -- An iteration over connectors with different numbers keeps the starts and stops of every connector alternating, if the
  -- stack gives the statuses that are notified.
  pub operate-AllConsistent :
      (max : F) (cs : List (Connector F)) (w : World F) (r : List (Connector F) × World F)
      → IsReflecting s
      → operate max s cs w ≡ some r
      → Distinct (ids cs)
      → AllConsistent w.calls
      → AllConsistent r.1.calls
  unfolding operate
  operate-AllConsistent max cs w r h e n k =
      let (a, ea, ga) = bind_inv (for_each (refresh_status s) cs) _ w e in
      let (b, eb, gb) = bind_inv (compute_setpoints max s a.0) _ a.1 ga in
      let (d, ed, gd) = bind_inv (update_connectors b.0) _ b.1 gb in
      let (ia, ta, qa) = refresh_all_lem s cs w a h ea in
      let (pb, qb) = compute_setpoints_lem max a.0 a.1 b eb in
      let (pd, qd) = update_connectors_lem b.0 b.1 d ed in
      let same = SameStatus-trans s a.0 b.0 d.0 pb pd in
      let numbers : ids d.0 ≡ ids cs = SameStatus-ids s a.0 d.0 same ∙ ia in
      let q : QuietAll s a.1.calls d.1.calls =
        λ id. Quiet-trans s id a.1.calls b.1.calls d.1.calls (qb id) (qd id) in
      run_all_lem d.0 d.1 r gd (subst Distinct (sym numbers) n)
        (SameStatus-Tells s d.1.calls a.0 d.0 same (Quiet-Tells s a.1.calls d.1.calls a.0 q ta))
        (QuietAll-AllConsistent a.1.calls d.1.calls q
          (QuietAll-AllConsistent w.calls a.1.calls qa k))
