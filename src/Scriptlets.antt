-- ===== src/Scriptlets.antt =====
-- jslibs/scriptlets: the functions that filter rules inject into a page.
pub mod Json
pub mod JsonPrune
pub mod Storage
pub mod RandomResponse
pub mod RequestProps
pub mod PreventXhr
pub mod WindowOpen
pub mod Timers
pub mod PruneXhr
pub mod Clipboard
pub mod Fetch
pub mod SetConstant
pub mod Traps
pub mod Listeners
