-- ===== src/Service.antt =====
-- `ServiceController` (src/servicecontroller.cpp): one Windows service behind handles to the
-- service control manager. What Windows answers is a function of the calls made so far. Handles
-- are numbered as they are opened.
pub mod Errors
pub mod Scm
pub mod Wait
pub mod Operations
pub mod Handles
