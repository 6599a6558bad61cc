-- ===== src/Sim/IdTag.antt =====
-- `isValidIdTagPresent` and `isTransactionStopCondition`.
use open_ocpp_simu.Common.{Bool, true, false, not, Text, [], if◌then◌else◌}
use open_ocpp_simu.Ocpp.{local, remote, ev_disconnected, other, Stack}
use open_ocpp_simu.Float.{FloatOps}
use open_ocpp_simu.Sim.World.{
  Connector, M, ◌>>=◌, ◌>>◌, pure, id_tag_pending, id_tag_of, reset_id_tag, remote_start_pending,
  remote_start_tag, reset_remote_start, remote_stop_pending, reset_remote_stop, authorize,
  stop_transaction, is_authorized, is_accepted,
}

module _ {F : Type 0} where
  abbrev pub with_tags : Connector F → Text → Text → Connector F
  with_tags c tag parent = record c { id_tag = tag; parent_id_tag = parent }

  -- The branch of a locally presented id tag.
  unfoldable pub local_tag : Stack F → Connector F → M F (Bool × Connector F)
  local_tag s c = do
    tag ← id_tag_of c.id
    answer ← authorize s c.id tag c.parent_id_tag
    reset_id_tag c.id
    pure (is_authorized answer.0, with_tags c tag answer.1)

  -- The authorization of a remote start, if the configuration asks for it.
  unfoldable pub remote_authorize : Stack F → Connector F → Text → M F (Bool × Connector F)
  remote_authorize s c tag =
      if s.authorize_remote_tx_requests
      then (do
        answer ← authorize s c.id tag c.parent_id_tag
        pure (is_authorized answer.0, with_tags c tag answer.1))
      else pure (true, with_tags c tag c.parent_id_tag)

  -- The branch of a remote start.
  unfoldable pub remote_tag : Stack F → Connector F → M F (Bool × Connector F)
  remote_tag s c = do
    pending ← remote_start_pending c.id
    if pending
        then (do
          tag ← remote_start_tag c.id
          answer ← remote_authorize s c tag
          reset_remote_start c.id
          pure answer)
        else pure (false, c)

  unfoldable pub is_valid_id_tag_present : Stack F → Connector F → Bool → M F (Bool × Connector F)
  is_valid_id_tag_present s c local_only = do
    pending ← id_tag_pending c.id
    answer ←
        if pending then local_tag s c else if local_only then pure (false, c) else remote_tag s c
    pure (answer.0, if answer.0 then answer.1 else with_tags answer.1 [] [])

module _ {F : Type 0} ⦃f : FloatOps F⦄ where
  -- `car_cable_capacity != 0.f`
  abbrev pub is_plugged : Connector F → Bool
  is_plugged c = not (f.eq c.car_cable_capacity f.nought)

  -- The branch of a locally presented id tag: only `Accepted` stops the transaction.
  unfoldable pub local_stop : Stack F → Connector F → M F Bool
  local_stop s c = do
    tag ← id_tag_of c.id
    answer ← authorize s c.id tag []
    reset_id_tag c.id
    if is_accepted answer.0 then (do stop_transaction c.id tag local; pure true) else pure false

  -- The last two branches.
  unfoldable pub car_stop : Connector F → M F Bool
  car_stop c =
      if not (is_plugged c)
      then (do stop_transaction c.id [] ev_disconnected; pure true)
      else if c.fault_pending
      then (do stop_transaction c.id [] other; pure true)
      else pure false

  -- The branches after the one of a local id tag.
  unfoldable pub remote_or_car_stop : Stack F → Connector F → M F Bool
  remote_or_car_stop s c = do
    stop ← remote_stop_pending c.id
    if stop
        then (do reset_remote_stop c.id; stop_transaction c.id [] remote; pure true)
        else car_stop c

  unfoldable pub is_transaction_stop_condition : Stack F → Connector F → M F Bool
  is_transaction_stop_condition s c = do
    pending ← id_tag_pending c.id
    if pending then local_stop s c else remote_or_car_stop s c
