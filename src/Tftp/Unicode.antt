-- ===== src/Tftp/Unicode.antt =====
-- What packet.rs uses of Rust's text functions: `String::from_utf8_lossy` and `to_lowercase`.
-- Both are written out on ASCII text. What they do to other text rests on the Unicode tables, so
-- that part is a parameter, of which nothing is assumed.
use rack_director.Prelude.{
  ℕ, ◌+◌, ◌≡◌, ◌≢◌, Bool, true, ◌&&◌, [], ◌∷◌, map, Bytes, All, ltb, leb, if◌then◌else◌,
}

pub record Unicode : Type 0 where
  pub repair : Bytes → Bytes
  pub lowercase : Bytes → Bytes

abbrev pub is_ascii : Bytes → Bool
is_ascii [] = true
is_ascii (c ∷ s) = ltb c 128 && is_ascii s

abbrev pub lower_byte : ℕ → ℕ
lower_byte c = if leb b'A' c && leb c b'Z' then c + 32 else c

unfoldable pub from_utf8_lossy : Unicode → Bytes → Bytes
from_utf8_lossy u s = if is_ascii s then s else u.repair s

unfoldable pub to_lowercase : Unicode → Bytes → Bytes
to_lowercase u s = if is_ascii s then map lower_byte s else u.lowercase s

-- What a Rust `String` without a NUL is: UTF-8, which the lossy reading leaves alone.
pub record IsText (u : Unicode) (s : Bytes) : Type 0 where
  pub utf8 : from_utf8_lossy u s ≡ s
  pub no_nul : All (λ c. c ≢ 0) s

-- Tables that know no character beyond ASCII, for the tests.
abbrev pub ascii_only : Unicode
ascii_only = record { repair = λ s. s; lowercase = λ s. s }
