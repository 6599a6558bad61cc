-- ===== src/Launcher/Tracking.antt =====
-- What the launcher starts and kills, by the statuses that it received.
use open_ocpp_simu.Common.{
  ℕ, suc, ◌+◌, ◌≤◌, ◌≡◌, ◌≢◌, refl, Bool, true, false, not, ◌==◌, ◌&&◌, none, some, List, [], ◌∷◌,
  Text, codes, text_eq_iff, length, arith, if◌then◌else◌,
}
use open_ocpp_simu.Launcher.Maps.{Map, lookup, insert, lookup-insert_self, lookup-erase_self}
use open_ocpp_simu.Launcher.{
  Params, Entry, Effect, Launcher, is_running, start_effects, start_one, start_loop,
  start_charge_points, index_status, kill_pid, kill_one, kill_loop, kill_charge_points,
}
use open_ocpp_simu.Launcher.Commands.{
  Payload, status_received, charge_point_received, remove_charge_point,
}

module _ {F : Type 0} where
  -- The charge point has all its parameters and does not run.
  abbrev pub can_start : Map Bool → Entry F → Bool
  can_start st e = elim e.params [
    | none ↦ false
    | some p ↦ not (elim (lookup st p.id) [ none ↦ false | some b ↦ b ])
  ]

  abbrev pub all_can_start : Map Bool → List (Entry F) → Bool
  all_can_start st [] = true
  all_can_start st (e ∷ es) = can_start st e && all_can_start st es

  abbrev started_count : Map Bool → List (Entry F) → ℕ
  started_count st [] = 0
  started_count st (e ∷ es) =
      let rest = started_count st es in if can_start st e then suc rest else rest

  started_count-le : (st : Map Bool) (es : List (Entry F)) → started_count st es ≤ length es
  started_count-le st [] = omega arith
  started_count-le st (e ∷ es) = ground (arith, started_count-le st es)

  started_count-all :
      (st : Map Bool) (es : List (Entry F))
      → (started_count st es == length es) ≡ all_can_start st es
  started_count-all st [] = refl
  started_count-all st (e ∷ es) = ground (arith, started_count-all st es, started_count-le st es)

  start_one_lem :
      (clean : Bool) (e : Entry F) (l : Launcher F)
      → ((start_one clean e l).0 ≡ can_start l.cp_status e)
        × ((start_one clean e l).1.cp_status ≡ l.cp_status)
  unfolding start_one
  start_one_lem clean e l = ground arith

  start_loop_lem :
      (clean : Bool) (es : List (Entry F)) (t s : ℕ) (l : Launcher F)
      → let r = start_loop clean es t s l in
        (r.0 ≡ length es + t)
        × (r.1 ≡ started_count l.cp_status es + s)
        × (r.2.cp_status ≡ l.cp_status)
  unfolding start_loop
  start_loop_lem clean [] t s l = (omega arith, omega arith, refl)
  start_loop_lem clean (e ∷ es) t s l =
      let (b, m) = start_one_lem clean e l in
      ground (
        arith,
        b,
        m,
        start_loop_lem clean es (suc t) (if (start_one clean e l).0 then suc s else s)
            (start_one clean e l).1,
      )

  -- A start succeeds exactly if every charge point of the command has all its parameters and is not
  -- running, and leaves the statuses as they are.
  pub start_charge_points_lem :
      (clean : Bool) (es : List (Entry F)) (l : Launcher F)
      → ((start_charge_points clean es l).0 ≡ all_can_start l.cp_status es)
        × ((start_charge_points clean es l).1.cp_status ≡ l.cp_status)
  unfolding start_charge_points
  start_charge_points_lem clean es l =
      let (t, s, m) = start_loop_lem clean es 0 0 l in
      (ground (arith, t, s, started_count-all l.cp_status es), m)

  -- A charge point that runs is not started, and one that does not run is.
  pub start_charge_points-running :
      (clean : Bool) (p : Params F) (e : Entry F) (l : Launcher F)
      → e.params ≡ some p
      → is_running l p.id ≡ true
      → start_charge_points clean (e ∷ []) l ≡ (false, l)
  unfolding start_charge_points start_loop start_one
  start_charge_points-running clean p e l h r = rw (h, r) refl

  pub start_charge_points-stopped :
      (clean : Bool) (p : Params F) (e : Entry F) (l : Launcher F)
      → e.params ≡ some p
      → is_running l p.id ≡ false
      → start_charge_points clean (e ∷ []) l
        ≡ (true, record l { effects = start_effects clean l.broker_url p l.effects })
  unfolding start_charge_points start_loop start_one
  start_charge_points-stopped clean p e l h r = rw (h, r) refl

  -- A charge point that reports a status with its pid, and is not dead, runs. A kill of it then kills
  -- this pid, and succeeds exactly if the system does it.
  pub kill-status_received :
      (kills : List (Effect F) → Bool) (name status : Text) (pid : ℕ) (p : Payload F) (e : Entry F)
      (l : Launcher F)
      → p.status ≡ some status
      → status ≢ codes "Dead"
      → p.pid ≡ some pid
      → e.id ≡ some name
      → (m : Launcher F) × (charge_point_received name (some p) l ≡ some m)
        × (is_running m name ≡ true)
        × (let es = Effect.kill pid ∷ l.effects in
            kill_charge_points kills (e ∷ []) m ≡ (kills es, record m { effects = es }))
  unfolding charge_point_received status_received kill_charge_points kill_loop kill_one index_status
      kill_pid
  kill-status_received kills name status pid p e l hs hd hp he =
      let st = insert name true l.cp_status in
      let pids = insert name pid l.cp_pids in
      let self = lookup-insert_self name true l.cp_status in
      let found = lookup-insert_self name pid l.cp_pids in
      let dead = text_eq_iff (codes "Dead") status in
      (
        record l { cp_status = st; cp_pids = pids },
        ground (arith, dead),
        ground (arith, self),
        ground (arith, self, found),
      )

  -- A removed charge point does not run and has no pid, so a kill of it fails and kills nothing.
  pub kill-remove_charge_point :
      (kills : List (Effect F) → Bool) (name : Text) (e : Entry F) (l : Launcher F)
      → e.id ≡ some name
      → let m = remove_charge_point name l in
        (is_running m name ≡ false) × (kill_charge_points kills (e ∷ []) m ≡ (false, m))
  unfolding remove_charge_point kill_charge_points kill_loop kill_one
  kill-remove_charge_point kills name e l he =
      let gone = lookup-erase_self name l.cp_status in
      let lost = lookup-erase_self name l.cp_pids in (ground (arith, gone), ground (arith, lost))
