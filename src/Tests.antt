-- ===== src/Tests.antt =====
-- The theorems at concrete inputs: one AC connector with one phase.
mod Data
mod Signed
mod Loop
mod Devices
mod Settings
mod Remote
mod Launches
mod Messages
mod CertificateData
mod Certs
mod Startups
mod Systems
mod Applications
