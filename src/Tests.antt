-- ===== src/Tests.antt =====
-- Runs of the models at concrete inputs, one for each result.
mod Sessions
mod Ladders
mod Heartbeats
mod Meshes
mod Tunnels
mod Errors
mod Switches
mod Auths
mod Apis
mod Managers
mod Settings
mod Peerings
mod Lives
mod Slos
mod Controls
mod Fallbacks
mod Configurations
mod Relays
mod Checks
