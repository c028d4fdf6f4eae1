-- ===== src/Installer.antt =====
-- `InstallCacicSA` (installcacic-standalone/installcacicsa.cpp): the installer that needs no Qt.
pub mod Folder
pub mod Site
pub mod Download
pub mod Service
pub mod Run
