-- ===== src/Mjai.antt =====
-- mjai: the Sichuan mahjong player.
pub mod Bubble
pub mod Grain
pub mod Weight
pub mod NewBlock
pub mod Ai
pub mod Full
pub mod Block
pub mod Search
pub mod Outs
pub mod SeeOuts
pub mod Sound
