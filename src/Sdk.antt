-- ===== src/Sdk.antt =====
-- src/client/sdk.cpp: the client's transfers of data. The remote calls are parameters.
pub mod Upload
pub mod Download
pub mod Transfer
pub mod Datanodes
pub mod Ranges
pub mod Cache
pub mod Writes
pub mod Calls
pub mod Put
pub mod Sync
pub mod Open
