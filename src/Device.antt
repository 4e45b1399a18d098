-- ===== src/Device.antt =====
-- src/iqm_device.cpp: the QDMI device interface.
pub mod Buffer
pub mod Session
pub mod Online
pub mod Description
pub mod Init
pub mod Status
pub mod Query
pub mod Job
pub mod Results
