-- ===== src/Examples.antt =====
-- The properties, applied at concrete inputs, and tests of the modelled functions.
mod Packets
mod Recovering
mod Watching
mod Scheduling
mod Clocks
mod Tabbing
mod Inserting
mod Ruling
mod Recording
mod Updating
