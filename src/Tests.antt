-- ===== src/Tests.antt =====
-- Runs of the model at concrete inputs, and each result at an input that meets its conditions.
mod Ports
mod Texts
mod Bouncers
mod Addresses
mod Cores
mod Managers
mod Sockets
