-- ===== src/Collectors.antt =====
-- The collectors, collectors/.
pub mod WindowsEvents
pub mod Processes
pub mod Psutil
pub mod Gpu
