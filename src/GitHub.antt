-- ===== src/GitHub.antt =====
-- The package pkg/github.
pub mod Api
pub mod App
pub mod Mock
pub mod Files
pub mod Installed
pub mod Paging
pub mod Examples
