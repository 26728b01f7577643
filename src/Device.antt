-- ===== src/Device.antt =====
-- The code that runs on the device: error codes of opencl_common.h and the work-group routines of
-- opencl_gpuscan.h.
pub mod Error
pub mod Group
