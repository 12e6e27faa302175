-- ===== src/Tests.antt =====
-- The theorems at concrete inputs.
mod Memory
mod Parts
mod Data
mod Web
mod Admin
mod Live
mod Workers
