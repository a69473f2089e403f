-- ===== src/App.antt =====
-- The programs of src/apps.
pub mod GatewayMain
pub mod RobotMain
pub mod StateDump
