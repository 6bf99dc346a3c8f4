-- ===== src/Auth.antt =====
-- auth/: the stores of the OAuth2 tokens and of the clients.
pub mod Documents
pub mod TokenStore
pub mod Clients
