-- ===== src/Launcher/Commands.antt =====
-- `mqttMessageReceived` of the launcher.
use open_ocpp_simu.Common.{
  ℕ, Bool, true, false, not, Option, none, some, List, ◌∷◌, Text, codes, is_empty, text_eq,
  if◌then◌else◌,
}
use open_ocpp_simu.Mqtt.Topics.{filename, elements, before_last}
use open_ocpp_simu.Launcher.Maps.{insert, erase}
use open_ocpp_simu.Launcher.{Entry, Effect, Launcher, start_charge_points, kill_charge_points}

-- The members of a payload: `none` for one that is missing, and for charge points that are no array.
pub record Payload (F : Type 0) : Type 0 where
  pub type : Option Text
  pub charge_points : Option (List (Entry F))
  pub status : Option Text
  pub pid : Option ℕ

module _ {F : Type 0} where
  -- The charge points of a command, if it has them.
  unfoldable pub with_charge_points :
      (List (Entry F) → Launcher F → Bool × Launcher F) → Payload F → Launcher F → Launcher F
  with_charge_points g p l = elim p.charge_points [ none ↦ l | some es ↦ (g es l).1 ]

  unfoldable pub command_received : (List (Effect F) → Bool) → Payload F → Launcher F → Launcher F
  command_received kills p l = elim p.type [
    | none ↦ l
    | some type ↦
        if text_eq type (codes "close")
        then record l { ended = true }
        else if text_eq type (codes "start")
        then with_charge_points (start_charge_points true) p l
        else if text_eq type (codes "kill")
        then with_charge_points (kill_charge_points kills) p l
        else if text_eq type (codes "restart")
        then with_charge_points (start_charge_points false) p l
        else l
  ]

  -- A status of a charge point that is not empty. A missing pid is a call that the JSON library forbids.
  unfoldable pub status_received : Text → Payload F → Launcher F → Option (Launcher F)
  status_received charge_point p l = elim p.status [
    | none ↦ some l
    | some status ↦
        let alive = not (text_eq (codes "Dead") status) in
        let m = record l { cp_status = insert charge_point alive l.cp_status } in
        if alive
        then elim p.pid [
          | none ↦ none
          | some pid ↦ some (record m { cp_pids = insert charge_point pid m.cp_pids })
        ]
        else some m
  ]

  -- An empty message removes a charge point.
  unfoldable pub remove_charge_point : Text → Launcher F → Launcher F
  remove_charge_point charge_point l = record l {
    cp_status = erase charge_point l.cp_status;
    cp_pids = erase charge_point l.cp_pids;
    effects = Effect.remove_dir charge_point ∷ l.effects;
  }

  -- The branch of the other topics.
  unfoldable pub charge_point_received :
      Text → Option (Payload F) → Launcher F → Option (Launcher F)
  charge_point_received charge_point none l = some (remove_charge_point charge_point l)
  charge_point_received charge_point (some p) l = status_received charge_point p l

  -- An empty message has no payload and is not parsed.
  unfoldable pub dispatch_message :
      (List (Effect F) → Bool) → Text → Option (Payload F) → Launcher F → Option (Launcher F)
  dispatch_message kills topic payload l =
      if text_eq (filename topic) (codes "cmd")
      then elim payload [ none ↦ some l | some p ↦ some (command_received kills p l) ]
      else elim (before_last (elements topic)) [
        | none ↦ none
        | some name ↦ charge_point_received name payload l
      ]

  unfoldable pub launcher_message_received :
      (Text → Option (Payload F))
      → (List (Effect F) → Bool)
      → Text
      → Text
      → Launcher F
      → Option (Launcher F)
  launcher_message_received parse kills topic message l =
      if is_empty message
      then dispatch_message kills topic none l
      else elim (parse message) [ none ↦ some l | some p ↦ dispatch_message kills topic (some p) l ]
