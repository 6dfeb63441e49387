-- ===== src/Api.antt =====
-- internal/api/server.go and pkg/client/client.go: the HTTP requests of the orchestrator, from the
-- client's side and from the server's.
pub mod Paths
pub mod Server
pub mod Client
pub mod Backend
