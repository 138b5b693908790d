-- ===== src/Tests.antt =====
-- Samples on which the theorems are run: a reading of texts and values, a vehicle, a transport.
mod Codec
mod Audit
mod Texts
mod Traces
mod Policies
mod Sensing
mod Updating
mod Vehicle
mod Vendor
