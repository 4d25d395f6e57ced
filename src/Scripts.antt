-- ===== src/Scripts.antt =====
-- redis/luaScripts/*.lua, the atomic scripts. An optional key is '__nil__' where it is `none`.
pub mod Acquire
pub mod Consume
pub mod Release
pub mod History
