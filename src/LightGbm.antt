-- ===== src/LightGbm.antt =====
-- src/frontend/lightgbm.cc: LightGBM's text files, from the bytes of the stream to a model.
pub mod Text
pub mod Numbers
pub mod Bitset
pub mod Parse
pub mod Export
