-- ===== src/Google.antt =====
-- internal/google: the client of Google's Drive API.
pub mod Errors
pub mod Drive
pub mod Tokens
pub mod Identity
pub mod OauthErrors
pub mod Oauth
pub mod Query
pub mod Paths
pub mod File
pub mod Requests
pub mod About
pub mod FileListing
mod Examples
