-- ===== src/Auth.antt =====
-- internal/auth: sessions and CSRF tokens (auth.go), the signed state of a sign-in and the return
-- paths (state.go).
pub mod Sessions
pub mod SignIn
pub mod Next
pub mod Cookies
mod Examples
