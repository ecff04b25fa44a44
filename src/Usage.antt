-- ===== src/Usage.antt =====
-- internal/usage: where the token of an account is read and written (keychain.go, in Usage/Keychain),
-- how it is renewed (refresh.go, in Usage/Json and Usage/Refresh), and what the usage API's answer
-- becomes (types.go, in Usage/Api).
pub mod Names
pub mod Keychain
pub mod Json
pub mod Refresh
pub mod Renewed
pub mod Sources
pub mod Api
pub mod Client
