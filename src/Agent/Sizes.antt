-- ===== src/Agent/Sizes.antt =====
-- partition.rs: the sizes of partitions. The arithmetic on floating-point numbers is a parameter.
use rack_director.Prelude.{
  ℕ, ◌-◌, ◌^◌, Bool, ◌||◌, ◌&&◌, Option, none, some, List, [], ◌∷◌, Bytes, codes, str_eq, leb, ◌==◌,
  if◌then◌else◌, length, take, drop, Result, ok, err, ok_or,
}

-- The numbers that the code reads with `f64::from_str`, scales, and cuts to 64 bits.
pub record Floats : Type 0 where
  pub scale : Bytes → ℕ → Option ℕ
  pub percent : Bytes → ℕ → Option ℕ

pub data SizeError : Type 0 where
  not_absolute : Bytes → SizeError
  invalid_number : Bytes → SizeError
  invalid_percentage : Bytes → SizeError

unfoldable pub ends_with : Bytes → Bytes → Bool
ends_with s suffix =
    leb (length suffix) (length s) && str_eq (drop (length s - length suffix) s) suffix

unfoldable pub strip_suffix : Bytes → Bytes → Option Bytes
unfolding ends_with
strip_suffix s suffix =
    if ends_with s suffix then some (take (length s - length suffix) s) else none

abbrev is_space : ℕ → Bool
is_space c = c == 32 || leb 9 c && leb c 13

-- `str::trim`, on ASCII texts.
unfoldable pub trim_start : Bytes → Bytes
trim_start [] = []
trim_start (c ∷ s) = if is_space c then trim_start s else c ∷ s

unfoldable pub trim_end : Bytes → Bytes
trim_end [] = []
trim_end (c ∷ s) = elim (trim_end s) [
  | [] ↦ if is_space c then [] else c ∷ []
  | x ∷ xs ↦ c ∷ x ∷ xs
]

unfoldable pub trim : Bytes → Bytes
unfolding trim_start trim_end
trim s = trim_end (trim_start s)

-- `trim_end_matches('%')`.
unfoldable pub trim_percent : Bytes → Bytes
trim_percent [] = []
trim_percent (c ∷ s) = elim (trim_percent s) [
  | [] ↦ if c == b'%' then [] else c ∷ []
  | x ∷ xs ↦ c ∷ x ∷ xs
]

-- The suffixes in the order in which they are tried.
abbrev pub suffixes : List (Bytes × ℕ)
suffixes =
    (codes "TiB", 1024 ^ 4)
    ∷ (codes "GiB", 1024 ^ 3)
    ∷ (codes "MiB", 1024 ^ 2)
    ∷ (codes "KiB", 1024)
    ∷ (codes "TB", 1000 ^ 4)
    ∷ (codes "GB", 1000 ^ 3)
    ∷ (codes "MB", 1000 ^ 2)
    ∷ (codes "KB", 1000)
    ∷ (codes "T", 1024 ^ 4)
    ∷ (codes "G", 1024 ^ 3)
    ∷ (codes "M", 1024 ^ 2)
    ∷ (codes "K", 1024)
    ∷ (codes "B", 1)
    ∷ []

-- The number's text, and what a unit stands for; bytes without a suffix.
unfoldable pub split_unit : List (Bytes × ℕ) → Bytes → Bytes × ℕ
split_unit [] s = (s, 1)
split_unit (u ∷ us) s = elim (strip_suffix s u.0) [ some n ↦ (n, u.1) | none ↦ split_unit us s ]

module _ (f : Floats) where
  unfoldable pub parse_size : Bytes → Result SizeError ℕ
  unfolding trim split_unit
  parse_size text =
      let s = trim text in
      let u = split_unit suffixes s in
      if str_eq s (codes "rest") || ends_with s (codes "%")
      then err (not_absolute s)
      else ok_or (f.scale (trim u.0) u.1) (invalid_number u.0)

  abbrev wrap : Result SizeError ℕ → Result SizeError (Option ℕ)
  wrap (ok n) = ok (some n)
  wrap (err e) = err e

  -- No size for the rest of the disk.
  unfoldable pub parse_partition_size : Bytes → ℕ → Result SizeError (Option ℕ)
  parse_partition_size s usable_size =
      if str_eq s (codes "rest") || str_eq s (codes "*")
      then ok none
      else if ends_with s (codes "%")
      then wrap (ok_or (f.percent (trim_percent s) usable_size) (invalid_percentage s))
      else wrap (parse_size s)
