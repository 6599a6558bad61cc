-- ===== src/Session/Tracked.antt =====
-- The launcher of src/launcher follows the charge points of src/chargepoint by the messages that
-- these publish. The JSON library is a parameter with its round trip.
use open_ocpp_simu.Common.{
  ℕ, ◌≡◌, ◌≢◌, refl, ◌∙◌, Bool, true, false, Option, none, some, List, [], ◌∷◌, Text, codes,
  is_empty, text_eq, arith, if◌then◌else◌,
}
use open_ocpp_simu.Certificates.Names.{has_slash}
use open_ocpp_simu.Launcher.Maps.{insert, lookup-insert_self}
use open_ocpp_simu.Launcher.{
  Params, Entry, Effect, Launcher, is_running, start_effects, start_charge_points,
  kill_charge_points,
}
use open_ocpp_simu.Launcher.Commands.{
  Payload, status_received, charge_point_received, remove_charge_point, dispatch_message,
  launcher_message_received,
}
use open_ocpp_simu.Launcher.Tracking.{
  start_charge_points-running, start_charge_points-stopped, kill-status_received,
  kill-remove_charge_point,
}
use open_ocpp_simu.Session.{charge_point_plan}
use open_ocpp_simu.Session.Publishing.{Json, Members, status_members}
use open_ocpp_simu.Session.Addresses.{status_topic_lem}

module _ {F : Type 0} where
  -- The first member with a name, if there is one.
  abbrev member : Text → Members F → Option (Json F)
  member name [] = none
  member name ((key, value) ∷ ms) =
      let rest = member name ms in if text_eq key name then some value else rest

  abbrev pub text_member : Text → Members F → Option Text
  text_member name ms = elim (member name ms) [
    | none ↦ none
    | some j ↦ elim j [ Json.string s ↦ some s | _ ↦ none ]
  ]

  abbrev pub number_member : Text → Members F → Option ℕ
  number_member name ms = elim (member name ms) [
    | none ↦ none
    | some j ↦ elim j [ Json.number n ↦ some n | _ ↦ none ]
  ]

  -- A written object is not empty, and the launcher finds the members that the charge point wrote.
  pub record ReadsBack (write : Members F → Text) (parse : Text → Option (Payload F)) : Type 0 where
    pub written : (ms : Members F) → is_empty (write ms) ≡ false
    pub read :
        (ms : Members F)
        → (p : Payload F) × (parse (write ms) ≡ some p)
          × (p.status ≡ text_member (codes "status") ms)
          × (p.pid ≡ number_member (codes "pid") ms)

  dead_received :
      (name : Text) (p : Payload F) (l : Launcher F)
      → p.status ≡ some (codes "Dead")
      → (m : Launcher F) × (charge_point_received name (some p) l ≡ some m)
        × (is_running m name ≡ false)
  unfolding charge_point_received status_received text_eq
  dead_received name p l h =
      let self = lookup-insert_self name false l.cp_status in
      (record l { cp_status = insert name false l.cp_status }, rw (h) refl, ground (arith, self))

  module _ (write : Members F → Text) (parse : Text → Option (Payload F))
      (laws : ReadsBack write parse) where
    received :
        (kills : List (Effect F) → Bool) (id url dead : Text) (ms : Members F) (l : Launcher F)
        → has_slash id ≡ false
        → is_empty id ≡ false
        → (p : Payload F) × (launcher_message_received parse kills
              (charge_point_plan id url dead).status_topic
              (write ms)
              l
            ≡ charge_point_received id (some p) l)
          × (p.status ≡ text_member (codes "status") ms)
          × (p.pid ≡ number_member (codes "pid") ms)
    unfolding launcher_message_received dispatch_message charge_point_plan text_eq
    received kills id url dead ms l h n =
        let full = laws.written ms in
        let (p, parsed, status, pid) = laws.read ms in
        let (last, before) = status_topic_lem id h n in
        (p, rw (full, parsed, last, before) refl, status, pid)

    removed :
        (kills : List (Effect F) → Bool) (id url dead : Text) (l : Launcher F)
        → has_slash id ≡ false
        → is_empty id ≡ false
        → launcher_message_received parse kills (charge_point_plan id url dead).status_topic [] l
          ≡ some (remove_charge_point id l)
    unfolding launcher_message_received dispatch_message charge_point_plan text_eq
        charge_point_received
    removed kills id url dead l h n =
        let (last, before) = status_topic_lem id h n in rw (last, before) refl

    -- The launcher tracks a charge point by what it publishes on its own topics. After a status that
    -- is not `Dead`, the launcher takes the charge point as running: a start of it fails and does
    -- nothing, and a kill of it kills the process that published, and succeeds exactly if the system
    -- kills it. After the will message of the charge point it takes it as not running, and a start of
    -- it succeeds and starts it. After an empty message on the topic of its status a kill of it
    -- fails, and kills nothing. The identifier is not empty and has no slash, the launcher reads what
    -- the charge point wrote, and the start has all the parameters.
    pub tracked_lem :
        (kills : List (Effect F) → Bool) (vendor model serial url : Text) (voltage max : F)
        (nb_phases pid : ℕ) (type id status : Text) (clean : Bool) (start : Params F) (e : Entry F)
        (l : Launcher F)
        → has_slash id ≡ false
        → is_empty id ≡ false
        → status ≢ codes "Dead"
        → e.id ≡ some id
        → e.params ≡ some start
        → start.id ≡ id
        → let message = λ (s : Text).
          write (status_members pid vendor model serial url voltage s nb_phases max type) in
          let plan = charge_point_plan id url (message (codes "Dead")) in
          let receive = launcher_message_received parse kills plan.status_topic in
          (m : Launcher F) × (receive (message status) l ≡ some m)
          × (is_running m id ≡ true)
          × (start_charge_points clean (e ∷ []) m ≡ (false, m))
          × (let es = Effect.kill pid ∷ l.effects in
              kill_charge_points kills (e ∷ []) m ≡ (kills es, record m { effects = es }))
          × (n : Launcher F) × (receive plan.dead m ≡ some n)
          × (is_running n id ≡ false)
          × (start_charge_points clean (e ∷ []) n
              ≡ (true, record n { effects = start_effects clean n.broker_url start n.effects }))
          × (o : Launcher F) × (receive [] n ≡ some o)
          × (is_running o id ≡ false)
          × (kill_charge_points kills (e ∷ []) o ≡ (false, o))
    unfolding charge_point_plan text_eq
    tracked_lem kills vendor model serial url voltage max nb_phases pid type id status clean start e
          l h ne hs he hp hi =
        let members =
          λ (s : Text). status_members pid vendor model serial url voltage s nb_phases max type in
        let dead = write (members (codes "Dead")) in
        let (p, first, alive, number) = received kills id url dead (members status) l h ne in
        let (m, second, running, killed) =
          kill-status_received kills id status pid p e l alive hs number he in
        let (q, third, ended, _) = received kills id url dead (members (codes "Dead")) m h ne in
        let (n, gone, stopped) = dead_received id q m ended in
        let (lost, none_killed) = kill-remove_charge_point kills id e n he in
        (
          m,
          first ∙ second,
          running,
          start_charge_points-running clean start e m hp (rw hi running),
          killed,
          n,
          third ∙ gone,
          stopped,
          start_charge_points-stopped clean start e n hp (rw hi stopped),
          remove_charge_point id n,
          removed kills id url dead n h ne,
          lost,
          none_killed,
        )
