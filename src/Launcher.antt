-- ===== src/Launcher.antt =====
-- src/launcher/CommandHandler.cpp: the launcher starts and kills charge points on commands, and keeps
-- track of the ones that run by their status messages. What it does to files and processes is recorded.
-- File operations succeed, and the branches for POSIX are taken.
-- The JSON library is a parameter: the members of a payload that are there, with the type asked for.
pub mod Maps
pub mod Commands
pub mod Tracking
use open_ocpp_simu.Common.{
  ℕ, zero, suc, Bool, true, false, not, ◌==◌, ◌&&◌, Option, none, some, List, [], ◌∷◌, Text, codes,
  is_empty, text_eq, length, if◌then◌else◌,
}
use open_ocpp_simu.Launcher.Maps.{Map, lookup, insert, erase}

-- The parameters of a charge point in a command.
pub record Params (F : Type 0) : Type 0 where
  pub id : Text
  pub kind : Text
  pub vendor : Text
  pub model : Text
  pub serial : Text
  pub central_system : Text
  pub nb_connectors : ℕ
  pub nb_phases : ℕ
  pub max_setpoint : ℕ
  pub max_current_per_connector : ℕ
  pub voltage : F

-- An element of `charge_points`: its id if it has one, and its parameters if it has them all.
pub record Entry (F : Type 0) : Type 0 where
  pub id : Option Text
  pub params : Option (Params F)

-- What the launcher does outside.
pub data Effect (F : Type 0) : Type 0 where
  remove_dir create_dir copy_config : Text → Effect F
  -- the four values written into the configuration file
  write_config : Params F → Effect F
  -- the command line, with the broker's URL
  launch : Text → Params F → Effect F
  kill : ℕ → Effect F

pub record Launcher (F : Type 0) : Type 0 where
  pub broker_url : Text
  pub ended : Bool
  pub cp_status : Map Bool
  pub cp_pids : Map ℕ
  -- newest first
  pub effects : List (Effect F)

-- `(m_cp_status.find(id) != m_cp_status.end()) && m_cp_status[id]`
abbrev pub is_running : {F : Type 0} → Launcher F → Text → Bool
is_running l id = elim (lookup l.cp_status id) [ none ↦ false | some b ↦ b ]

module _ {F : Type 0} where
  -- The effects of the start of one charge point.
  unfoldable pub start_effects : Bool → Text → Params F → List (Effect F) → List (Effect F)
  start_effects clean_env broker_url p es =
      Effect.launch broker_url p
      ∷ Effect.write_config p
      ∷ (if clean_env
          then Effect.copy_config p.id ∷ Effect.create_dir p.id ∷ Effect.remove_dir p.id ∷ es
          else es)

  -- The body of the loop, and whether the charge point is started.
  unfoldable pub start_one : Bool → Entry F → Launcher F → Bool × Launcher F
  start_one clean_env e l = elim e.params [
    | none ↦ (false, l)
    | some p ↦
        if is_running l p.id
        then (false, l)
        else (true, record l { effects = start_effects clean_env l.broker_url p l.effects })
  ]

  -- The loop, with the counts of the charge points seen and started.
  unfoldable pub start_loop : Bool → List (Entry F) → ℕ → ℕ → Launcher F → ℕ × ℕ × Launcher F
  start_loop clean_env [] total started l = (total, started, l)
  start_loop clean_env (e ∷ es) total started l =
      let r = start_one clean_env e l in
      start_loop clean_env es (suc total) (if r.0 then suc started else started) r.1

  unfoldable pub start_charge_points : Bool → List (Entry F) → Launcher F → Bool × Launcher F
  start_charge_points clean_env es l = let r = start_loop clean_env es 0 0 l in (r.1 == r.0, r.2)

  -- `m_cp_status[id]`, which adds a charge point that is not there.
  unfoldable pub index_status : Text → Launcher F → Bool × Launcher F
  index_status id l = elim (lookup l.cp_status id) [
    | none ↦ (false, record l { cp_status = insert id false l.cp_status })
    | some b ↦ (b, l)
  ]

  -- `kill` answers by the effects so far.
  unfoldable pub kill_pid : (List (Effect F) → Bool) → ℕ → Launcher F → Bool × Launcher F
  kill_pid kills pid l =
      let es = Effect.kill pid ∷ l.effects in (kills es, record l { effects = es })

  unfoldable pub kill_one : (List (Effect F) → Bool) → Entry F → Launcher F → Bool × Launcher F
  kill_one kills e l = elim e.id [
    | none ↦ (false, l)
    | some id ↦ elim (lookup l.cp_pids id) [
      | none ↦ (false, l)
      | some pid ↦ let r = index_status id l in if r.0 then kill_pid kills pid r.1 else (false, r.1)
    ]
  ]

  unfoldable pub kill_loop :
      (List (Effect F) → Bool) → List (Entry F) → ℕ → ℕ → Launcher F → ℕ × ℕ × Launcher F
  kill_loop kills [] total killed l = (total, killed, l)
  kill_loop kills (e ∷ es) total killed l =
      let r = kill_one kills e l in
      kill_loop kills es (suc total) (if r.0 then suc killed else killed) r.1

  unfoldable pub kill_charge_points :
      (List (Effect F) → Bool) → List (Entry F) → Launcher F → Bool × Launcher F
  kill_charge_points kills es l = let r = kill_loop kills es 0 0 l in (r.1 == r.0, r.2)
