-- ===== src/Sim/Status.antt =====
-- The status of the charge point that the loop publishes.
use open_ocpp_simu.Common.{◌≡◌, Bool, Option, none, some, if◌then◌else◌}
use open_ocpp_simu.Ocpp.{RegistrationStatus}
use open_ocpp_simu.Sim.Loop.{LoopVars}

-- What is to be published for a connection and a registration status.
abbrev pub label : Bool → RegistrationStatus → Option RegistrationStatus
label connected status = if connected then some status else none

-- The status text is the one of the connection and the registration status seen last.
abbrev pub IsConsistent : LoopVars → Type 0
IsConsistent v = v.status_str ≡ label v.ocpp_connected v.ocpp_status
