-- ===== src/Tests.antt =====
-- Runs of the definitions on small inputs, and the theorems at inputs where their conditions hold.
mod Data
mod OfDb
mod OfPush
mod OfListeners
mod OfSocket
mod OfGcm
mod OfJni
mod OfFcm
mod OfPatcher
