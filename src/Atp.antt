-- ===== src/Atp.antt =====
-- atp: the Arcaflow transport protocol between the engine (client) and a plugin (server).
pub mod Protocol
pub mod Client
pub mod Server
pub mod Link
