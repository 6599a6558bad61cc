-- ===== src/Handler.antt =====
-- src/chargepoint/ocpp/ChargePointEventsHandler.h and .cpp: the requests of the central system that
-- wait for the control loop. An access outside a vector is `none`.
pub mod Requests
pub mod Measures
pub mod Pending
pub mod Limits
pub mod Transfers
pub mod Answers
use mathlib.Core.Option
use open_ocpp_simu.Common.{
  ℕ, Bool, true, false, Option, none, some, List, [], Text, slot, modify_slot, replicate,
}

pub record Handler : Type 0 where
  pub remote_start_pending : List Bool
  pub remote_stop_pending : List Bool
  pub remote_start_id_tags : List Text
  pub connected : Bool
  pub reset_pending : Bool

unfoldable pub new_handler : ℕ → Handler
new_handler nb_connectors = record {
  remote_start_pending = replicate nb_connectors false;
  remote_stop_pending = replicate nb_connectors false;
  remote_start_id_tags = replicate nb_connectors [];
  connected = false;
  reset_pending = false;
}

unfoldable pub is_remote_start_pending : Handler → ℕ → Option Bool
is_remote_start_pending h id = slot h.remote_start_pending id

unfoldable pub reset_remote_start_pending : Handler → ℕ → Option Handler
reset_remote_start_pending h id =
    Option.map (λ ps. record h { remote_start_pending = ps })
      (modify_slot h.remote_start_pending id (λ _. false))

unfoldable pub is_remote_stop_pending : Handler → ℕ → Option Bool
is_remote_stop_pending h id = slot h.remote_stop_pending id

unfoldable pub reset_remote_stop_pending : Handler → ℕ → Option Handler
reset_remote_stop_pending h id =
    Option.map (λ ps. record h { remote_stop_pending = ps })
      (modify_slot h.remote_stop_pending id (λ _. false))

unfoldable pub remote_start_id_tag : Handler → ℕ → Option Text
remote_start_id_tag h id = slot h.remote_start_id_tags id

unfoldable pub is_connected : Handler → Bool
is_connected h = h.connected

unfoldable pub clear_reset_pending : Handler → Handler
clear_reset_pending h = record h { reset_pending = false }

unfoldable pub is_reset_pending : Handler → Bool
is_reset_pending h = h.reset_pending

unfoldable pub connection_state_changed : Handler → Bool → Handler
connection_state_changed h connected = record h { connected = connected }

unfoldable pub reset_requested : Handler → Handler × Bool
reset_requested h = (record h { reset_pending = true }, true)
