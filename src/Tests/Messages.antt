-- ===== src/Tests/Messages.antt =====
-- The messages between the programs at concrete inputs.
use open_ocpp_simu.Common.{
  ℕ, zero, suc, ◌^◌, ◌≡◌, ◌≢◌, refl, Bool, true, false, Option, none, some, List, [], ◌∷◌, Text,
  codes, is_empty, slot, arith,
}
use open_ocpp_simu.Float.{Hundredths}
use open_ocpp_simu.Launcher.{
  Effect, Launcher, is_running, start_effects, start_charge_points, kill_charge_points,
}
use open_ocpp_simu.Launcher.Commands.{Payload, launcher_message_received}
use open_ocpp_simu.Mqtt.{Mqtt, pending_id_tag, is_id_tag_pending}
use open_ocpp_simu.Mqtt.Messages.{Document}
use open_ocpp_simu.Paho.Callbacks.{Message, on_message_received}
use open_ocpp_simu.Session.{charge_point_plan}
use open_ocpp_simu.Session.Publishing.{Members, status_members}
use open_ocpp_simu.Session.Tracked.{ReadsBack, text_member, number_member, tracked_lem}
use open_ocpp_simu.Session.Presented.{id_tag_topic, manager_listener, pending_id_tag-delivered}
use open_ocpp_simu.Ocpp.{available, StackCall}
use open_ocpp_simu.Sim.World.{World}
use open_ocpp_simu.Sim.IdTag.{with_tags}
use open_ocpp_simu.System.Races.{local_tag_during, deliver, local_tag_during-delivered}
use open_ocpp_simu.Tests.Data.{mqtt, stack, connector, world, tag}
use open_ocpp_simu.Tests.Loop.{Fits-world}
use open_ocpp_simu.Tests.Devices.{document, text_value}
use open_ocpp_simu.Tests.Launches.{params, entry, launcher}

-- A text that holds the members that the launcher reads.
abbrev with_pid : Option ℕ → Text → Text
with_pid none s = 0 ∷ s
with_pid (some n) s = 1 ∷ n ∷ s

abbrev with_status : Option Text → Text
with_status none = 0 ∷ []
with_status (some s) = 1 ∷ s

abbrev write : Members Hundredths → Text
write ms = with_pid (number_member (codes "pid") ms) (with_status (text_member (codes "status") ms))

abbrev read_status : Text → Option Text
read_status (suc i ∷ s) = some s
read_status _ = none

abbrev payload : Option ℕ → Option Text → Payload Hundredths
payload pid status = record { type = none; charge_points = none; status = status; pid = pid }

abbrev parse : Text → Option (Payload Hundredths)
parse (suc i ∷ n ∷ s) = some (payload (some n) (read_status s))
parse (zero ∷ s) = some (payload none (read_status s))
parse _ = none

write-parse :
    (pid : Option ℕ) (status : Option Text)
    → (is_empty (with_pid pid (with_status status)) ≡ false)
      × (parse (with_pid pid (with_status status)) ≡ some (payload pid status))
write-parse none none = (refl, refl)
write-parse none (some s) = (refl, refl)
write-parse (some n) none = (refl, refl)
write-parse (some n) (some s) = (refl, refl)

write-ReadsBack : ReadsBack write parse
write-ReadsBack = record {
  written =
      λ ms. (write-parse (number_member (codes "pid") ms) (text_member (codes "status") ms)).0;
  read = λ ms.
      let pid = number_member (codes "pid") ms in
      let status = text_member (codes "status") ms in
      (payload pid status, (write-parse pid status).1, refl, refl);
}

abbrev message : Text → Text
message s = write (
    status_members 42 (codes "v") (codes "m") (codes "1") (codes "ws://cs") (some 23000) s 3
      (some 3200) (codes "AC"))

tracked_lem_example :
    let plan = charge_point_plan (codes "cp1") (codes "ws://cs") (message (codes "Dead")) in
    let receive = launcher_message_received parse (λ e. true) plan.status_topic in
    (m : Launcher Hundredths) × (receive (message (codes "Available")) launcher ≡ some m)
    × (is_running m (codes "cp1") ≡ true)
    × (start_charge_points true (entry ∷ []) m ≡ (false, m))
    × (let es : List (Effect Hundredths) = Effect.kill 42 ∷ [] in
        kill_charge_points (λ e. true) (entry ∷ []) m ≡ (true, record m { effects = es }))
    × (n : Launcher Hundredths) × (receive plan.dead m ≡ some n)
    × (is_running n (codes "cp1") ≡ false)
    × (start_charge_points true (entry ∷ []) n
        ≡ (true, record n { effects = start_effects true n.broker_url params n.effects }))
    × (o : Launcher Hundredths) × (receive [] n ≡ some o)
    × (is_running o (codes "cp1") ≡ false)
    × (kill_charge_points (λ e. true) (entry ∷ []) o ≡ (false, o))
unfolding open_ocpp_simu.Certificates.Names.has_slash
tracked_lem_example =
    tracked_lem write parse write-ReadsBack (λ e. true) (codes "v") (codes "m") (codes "1")
      (codes "ws://cs") (some 23000) (some 3200) 3 42 (codes "AC") (codes "cp1") (codes "Available")
      true params entry launcher refl refl (ground arith) refl refl refl

-- The text that is delivered goes on after the payload.
abbrev delivery : Message
delivery = record { payload = 65 ∷ 66 ∷ 67 ∷ []; payloadlen = 2; qos = 0; retained = 0 }

abbrev parse_tag : Text → Option (Document Hundredths)
parse_tag s = some (document (codes "id") s)

pending_id_tag-delivered_example :
    (n : Mqtt Hundredths) × (on_message_received
        (some (some (manager_listener parse_tag)))
        (id_tag_topic (codes "cp1") 1)
        delivery
        (mqtt, true)
      ≡ some (n, false))
    × (pending_id_tag n 1 ≡ some (codes "AB"))
    × (is_id_tag_pending n 1 ≡ some true)
    × (slot n.connectors 2 ≡ slot mqtt.connectors 2)
unfolding open_ocpp_simu.Common.text_eq open_ocpp_simu.Certificates.Names.has_slash
pending_id_tag-delivered_example =
    pending_id_tag-delivered parse_tag (codes "cp1") (codes "AB") delivery 1 2 mqtt true
      (document (codes "id") (codes "AB")) (text_value (codes "AB")) refl refl (omega arith)
      (ground arith) (omega arith) refl refl refl refl

local_tag_during-delivered_example :
    (u : World Hundredths) × (local_tag_during
        (deliver parse_tag (id_tag_topic (codes "cp1") 1) delivery)
        stack
        (connector available)
        world
      ≡ some ((true, with_tags (connector available) tag []), u))
    × (u.calls ≡ StackCall.authorize 1 tag ∷ [])
    × (pending_id_tag u.mqtt 1 ≡ some [])
unfolding open_ocpp_simu.Common.text_eq open_ocpp_simu.Certificates.Names.has_slash pending_id_tag
    slot
local_tag_during-delivered_example =
    local_tag_during-delivered parse_tag (codes "cp1") tag (codes "AB") delivery stack
      (connector available) world (document (codes "id") (codes "AB")) (text_value (codes "AB"))
      Fits-world (omega arith) refl refl refl refl refl refl refl
