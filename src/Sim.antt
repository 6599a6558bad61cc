-- ===== src/Sim.antt =====
-- src/chargepoint/SimulatedChargePoint.cpp: the control loop of the charge point.
-- `World` is what the loop shares with the MQTT thread and the stack's threads, with the calls that
-- it made on the stack. An action is a function of it; `none` is an access out of bounds.
pub mod World
pub mod IdTag
pub mod Step
pub mod Permitted
pub mod Safety
pub mod Runs
pub mod Totality
pub mod Setpoints
pub mod Consumption
pub mod Loop
pub mod Later
pub mod Transactions
pub mod Rounds
pub mod Status
pub mod Tags
pub mod Behaviour
