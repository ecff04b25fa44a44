-- ===== src/Ble.antt =====
-- internal/ble/ble.go: the bridge to the display. Its radio, its HTTP client, the programs that it
-- starts and the JSON that it writes are given.
pub mod Recording
pub mod Tidy
pub mod Payload
pub mod Fit
pub mod Link
