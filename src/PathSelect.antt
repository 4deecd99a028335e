-- ===== src/PathSelect.antt =====
-- pkg/pathselect: the session state machine, the configuration of the path ladder, the ladder
-- itself (`Ensure`), the health check with failover (`HealthTick`) and `ClearActive`.
pub mod Session
pub mod Config
pub mod Ladder
pub mod Health
pub mod Release
