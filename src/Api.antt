-- ===== src/Api.antt =====
-- internal/api: the authentication of a request, and the handlers.
pub mod Auth
pub mod Server
