-- ===== src/Net.antt =====
-- Package net of the language's library, as far as the code uses it.
pub mod Url
