-- ===== src/Auth.antt =====
-- The package auth: auth/www_authenticate.go, auth/pkce.go and auth/resource_uri.go.
pub mod Challenge
pub mod Pkce
pub mod Resource
pub mod Discovery
pub mod Store
pub mod Coordinator
