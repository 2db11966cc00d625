-- ===== src/Tests.antt =====
-- Concrete runs, and the theorems at concrete inputs.
mod Samples
mod Common
mod Raw
mod Roaring
mod Wah
mod Codecs
