-- ===== src/Auth.antt =====
-- internal/domain/auth: accounts, credentials, sessions and tokens.
pub mod Repository
pub mod Tokens
pub mod Service
pub mod Sessions
pub mod Registration
pub mod Passwords
pub mod Oauth
pub mod Presenter
pub mod Email
pub mod Handler
pub mod Integrity
