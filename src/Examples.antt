-- ===== src/Examples.antt =====
-- Runs of the modelled code on concrete inputs.
mod Setting
mod Chat
mod Clients
mod Broker
mod Rosters
mod Load
