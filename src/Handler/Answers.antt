-- ===== src/Handler/Answers.antt =====
-- The handlers of src/chargepoint/ocpp/ChargePointEventsHandler.cpp whose answer needs no state of their own: the meter
-- value at the start and the stop of a transaction, unlocking, data transfers and the firmware.
use mathlib.Core.Option
use open_ocpp_simu.Common.{
  ℕ, zero, suc, ◌-◌, ◌%◌, ◌^◌, Option, some, List, Text, codes, slot, ltb, if◌then◌else◌, ℤ, pos,
  negsuc,
}
use open_ocpp_simu.Meter.{get_energy}
use open_ocpp_simu.Sim.World.{Connector}

-- `static_cast<int>` of an `int64_t` that is not negative.
unfoldable pub to_int : ℕ → ℤ
to_int n = if ltb (n % 2 ^ 32) (2 ^ 31) then pos (n % 2 ^ 32) else negsuc (2 ^ 32 - 1 - n % 2 ^ 32)

-- `none` is the exception of `at`.
unfoldable pub get_tx_start_stop_meter_value : {F : Type 0} → ℕ → List (Connector F) → Option ℤ
get_tx_start_stop_meter_value zero cs = some (pos 0)
get_tx_start_stop_meter_value (suc i) cs =
    Option.map (λ c. to_int (get_energy c.meter)) (slot cs (suc i))

pub data UnlockStatus : Type 0 where
  unlocked : UnlockStatus
  unlock_failed : UnlockStatus
  not_supported : UnlockStatus

abbrev pub unlock_connector_requested : ℕ → UnlockStatus
unlock_connector_requested connector_id = unlocked

pub data DataTransferStatus : Type 0 where
  accepted : DataTransferStatus
  rejected : DataTransferStatus
  unknown_message_id : DataTransferStatus
  unknown_vendor_id : DataTransferStatus

-- The status, and the response, which stays as it is.
abbrev pub data_transfer_requested : Text → Text → Text → Text → DataTransferStatus × Text
data_transfer_requested vendor_id message_id request_data response_data =
    (unknown_vendor_id, response_data)

abbrev pub update_firmware_requested : Text
update_firmware_requested = codes "/tmp/firmware.tar.gz"
