-- ===== src/Tests/Platforms.antt =====
-- Concrete values of the parameters: an ASCII package unicode, and a platform.
use kefka.Common.{
  ℕ, ◌+◌, ◌-◌, ◌/◌, Bool, not, ◌&&◌, ◌||◌, map, ltb, ◌==◌, if◌then◌else◌, codes, equal, within,
}
use kefka.Common.Int.{pos}
use kefka.Unicode.{Unicode}
use kefka.Find.Eval.{Platform}
use kefka.Find.Printf.Format.{Clock}

abbrev lower_rune : ℕ → ℕ
lower_rune c = if within b'A' b'Z' c then c + 32 else c

abbrev is_ascii_letter : ℕ → Bool
is_ascii_letter c = within b'a' b'z' c || within b'A' b'Z' c

abbrev is_ascii_print : ℕ → Bool
is_ascii_print = within b' ' b'~'

abbrev is_ascii_digit : ℕ → Bool
is_ascii_digit = within b'0' b'9'

abbrev pub ascii : Unicode
ascii = record {
  to_lower = map lower_rune;
  is_upper = within b'A' b'Z';
  is_lower = within b'a' b'z';
  is_letter = is_ascii_letter;
  is_digit = is_ascii_digit;
  is_control = λ c. ltb c b' ' || c == 127;
  is_print = is_ascii_print;
  is_punct = λ c. is_ascii_print c && not (is_ascii_letter c || is_ascii_digit c || c == b' ');
  is_symbol = λ c. c == b'+' || c == b'$';
  is_space = λ c. c == b' ' || within 9 13 c;
}

-- A regular expression matches the text that it is; a day has 86400 seconds.
abbrev pub platform : Platform
platform = record {
  unicode = ascii;
  match_string = equal;
  days_between = λ now mtime. pos ((now - mtime) / 86_400_000_000_000);
}

abbrev pub clock : Clock
clock = record {
  ctime = λ t. codes "Thu Jan  1 00:00:00 1970";
  seconds_since_epoch = λ t. codes "0";
  year = λ t. 1970;
  month = λ t. 1;
  day = λ t. 1;
  hour = λ t. 0;
  minute = λ t. 0;
  second = λ t. 0;
}
