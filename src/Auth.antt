-- ===== src/Auth.antt =====
-- include/iqm_auth.hpp and src/internal/iqm_auth.cpp: base64, the expiry of a JWT and the manager of
-- the access token.
pub mod Base64
pub mod Expiry
pub mod Manager
mod Tests
