-- ===== src/Mesh.antt =====
-- OpenBridge and FreeBridge links between servers: src/adn_server/domain/mesh_*.py and
-- src/adn_server/infrastructure/mesh/.
pub mod Admission
pub mod Session
pub mod Config
pub mod Sessions
pub mod Engine
pub mod Wire
