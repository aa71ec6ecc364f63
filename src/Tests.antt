-- ===== src/Tests.antt =====
-- Runs of the program against a small engine.
mod Arguments
mod Callbacks
mod Engine
mod Gates
mod Globals
mod Handles
mod Hosts
mod Isolates
mod Lifted
mod Lives
mod Methods
mod Modules
mod Opens
mod Ready
mod Refusals
mod Texts
mod Values
mod Waits
