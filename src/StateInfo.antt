-- ===== src/StateInfo.antt =====
-- sdk_core/command_handler/parse_lidar_state_info.cpp: the state information that a device pushes, a
-- list of keys and values, parsed into a structure and printed as JSON.
pub mod Keys
pub mod Info
pub mod Values
pub mod Parse
pub mod Cases
pub mod Text
pub mod Settings
pub mod Reports
pub mod Json
pub mod Members
pub mod Names
pub mod Query
pub mod Report
pub mod Tests
pub mod Safety
pub mod Message
pub mod Mask
