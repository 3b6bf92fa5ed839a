-- ===== src/Strings/Case.antt =====
-- `to_ascii_lowercase` and `eq_ignore_ascii_case`.
use enody_rs.Common.{ℕ, ◌+◌, Text, Bool, ◌&&◌, leb, if◌then◌else◌, map, text_eq}

abbrev pub lower : ℕ → ℕ
lower c = if leb b'A' c && leb c b'Z' then c + 32 else c

abbrev pub to_ascii_lowercase : Text → Text
to_ascii_lowercase = map lower

unfoldable pub eq_ignore_ascii_case : Text → Text → Bool
eq_ignore_ascii_case s t = text_eq (to_ascii_lowercase s) (to_ascii_lowercase t)
