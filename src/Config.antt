-- ===== src/Config.antt =====
-- src/chargepoint/ocpp/OcppConfig.cpp: the configuration that the Central System reads and writes.
pub mod Keys
pub mod Requests
pub mod Answers
pub mod Getters
pub mod Reads
