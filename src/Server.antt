-- ===== src/Server.antt =====
-- internal/server: the routes of the files, the middleware for sessions and CSRF tokens, and the
-- end of an OAuth round trip.
pub mod FileRoutes
pub mod AccountRoutes
pub mod Meta
pub mod Guard
pub mod Linking
pub mod SignIn
pub mod Routes
pub mod Start
pub mod Callback
mod Examples
