-- ===== src/Certificates.antt =====
-- src/chargepoint/ocpp/ChargePointEventsHandler.cpp: the certificates in the working directory.
-- The certificate, hash and string functions of the Open OCPP library are parameters, and so is what
-- the file system answers. `none` is an exception that a file operation throws.
pub mod Library
pub mod Files
pub mod Install
pub mod Delete
pub mod Names
pub mod Counts
pub mod Received
pub mod ChargePoint
pub mod Signing
pub mod Deletion
pub mod Again
pub mod InUse
