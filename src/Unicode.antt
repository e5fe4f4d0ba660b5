-- ===== src/Unicode.antt =====
-- Package unicode of the language's library, and the letter cases of package strings: a parameter of
-- the definitions that use it.
use kefka.Common.{ℕ, Bool, Bytes}

-- What the code uses of packages unicode and strings.
pub record Unicode : Type 0 where
  pub to_lower : Bytes → Bytes
  pub is_upper : ℕ → Bool
  pub is_lower : ℕ → Bool
  pub is_letter : ℕ → Bool
  pub is_digit : ℕ → Bool
  pub is_control : ℕ → Bool
  pub is_print : ℕ → Bool
  pub is_punct : ℕ → Bool
  pub is_symbol : ℕ → Bool
  pub is_space : ℕ → Bool
