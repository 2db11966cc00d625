-- ===== src/WordCodecs.antt =====
-- backends/word_codecs.cpp: the cursor and the writer of EWAH, CONCISE, PLWAH and VAL. Each class has
-- the state of all four codecs. A `uint32_t` is a number below 2 ^ 32.
pub mod Cursor
pub mod Writer
pub mod Bound
pub mod Words
pub mod Spans
pub mod Fills
pub mod Read
pub mod Write
pub mod Concise
pub mod Plwah
pub mod Ewah
