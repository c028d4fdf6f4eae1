-- ===== src/Socket.antt =====
-- The sockets between the daemon and the user interface (cacicD/serviceclient.cpp,
-- cacicD/serviceserverthread.cpp, cacic-ui/uiclient.cpp, cacic-ui/uiserverthread.cpp).
pub mod Frame
pub mod Client
pub mod Server
