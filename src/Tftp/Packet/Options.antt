-- ===== src/Tftp/Packet/Options.antt =====
-- packet.rs: the loop of `parse_options`, on what `write_options` prints, on an invalid value, and
-- on repeated keys.
use rack_director.Prelude.{
  ℕ, zero, suc, ◌≤◌, ◌<◌, ◌≡◌, ◌≢◌, refl, sym, ap, ◌∙◌, List, [], ◌∷◌, ◌++◌, append_assoc,
  append-nil, Bytes, length, All, str_eq, str_eq_iff, false, true, ok, err, ◌>>=◌, arith,
}
use rack_director.Tftp.Decimal.{max_u64}
use rack_director.Tftp.Decimal
use rack_director.Tftp.Decimal.RoundTrip.{from_str-to_string, to_string-AreDigits, AreDigits}
use rack_director.Tftp.Unicode.{Unicode, from_utf8_lossy, to_lowercase, IsText, is_ascii}
use rack_director.Tftp.Options.{
  TftpOption, t_size, blk_size, unrecognized, OptionError, from_pair, to_pair, tsize_key,
  blksize_key,
}
use rack_director.Tftp.Packet.{same_key, options_contain_duplicate, parse_options_from}
use rack_director.Tftp.Packet.Read.{read_string-append, key_of, print_options, is_empty-terminated}

-- An option as `parse_options` makes it: a u64, or a key in lower case that is no number's key.
pub record IsUnrecognized (u : Unicode) (key value : Bytes) : Type 0 where
  pub key_text : IsText u key
  pub value_text : IsText u value
  pub lower : to_lowercase u key ≡ key
  pub other : (key ≢ tsize_key) × (key ≢ blksize_key)

abbrev pub IsOption : Unicode → TftpOption → Type 0
IsOption u (t_size v) = v ≤ max_u64
IsOption u (blk_size v) = v ≤ max_u64
IsOption u (unrecognized key value) = IsUnrecognized u key value

-- No option has the key of another.
abbrev pub AreApart : TftpOption → List TftpOption → Type 0
AreApart o = All (λ p. key_of p ≢ key_of o)

abbrev pub AreDistinct : List TftpOption → Type 0
AreDistinct [] = Unit
AreDistinct (o ∷ os) = AreApart o os × AreDistinct os

digits-no_nul : (s : Bytes) → AreDigits s → All (λ c. c ≢ 0) s
digits-no_nul [] h = tt
digits-no_nul (c ∷ s) h = (omega arith, digits-no_nul s h.1)

digits-ascii : (s : Bytes) → AreDigits s → is_ascii s ≡ true
digits-ascii [] h = refl
digits-ascii (c ∷ s) h = ground (arith, digits-ascii s h.1)

digits-IsText : (u : Unicode) (s : Bytes) → AreDigits s → IsText u s
unfolding from_utf8_lossy
digits-IsText u s h = record { utf8 = rw (digits-ascii s h); no_nul = digits-no_nul s h }

pair-IsText :
    (u : Unicode) (o : TftpOption) → IsOption u o → IsText u (to_pair o).0 × IsText u (to_pair o).1
unfolding to_pair from_utf8_lossy
pair-IsText u (t_size v) h =
    (record { utf8 = refl; no_nul = omega arith }, digits-IsText u _ (to_string-AreDigits v))
pair-IsText u (blk_size v) h =
    (record { utf8 = refl; no_nul = omega arith }, digits-IsText u _ (to_string-AreDigits v))
pair-IsText u (unrecognized key value) h = (h.key_text, h.value_text)

from_pair_other :
    (key value : Bytes)
    → key ≢ tsize_key
    → key ≢ blksize_key
    → from_pair key value ≡ ok (unrecognized key value)
unfolding from_pair
from_pair_other key value h k = ground (arith, str_eq_iff key tsize_key, str_eq_iff key blksize_key)

to_lowercase_tsize : (u : Unicode) → to_lowercase u tsize_key ≡ tsize_key
unfolding to_lowercase
to_lowercase_tsize u = refl

to_lowercase_blksize : (u : Unicode) → to_lowercase u blksize_key ≡ blksize_key
unfolding to_lowercase
to_lowercase_blksize u = refl

from_pair_tsize : (v : ℕ) → v ≤ max_u64 → from_pair tsize_key (Decimal.to_string v) ≡ ok (t_size v)
unfolding from_pair str_eq
from_pair_tsize v h = rw (from_str-to_string v h)

from_pair_blksize :
    (v : ℕ) → v ≤ max_u64 → from_pair blksize_key (Decimal.to_string v) ≡ ok (blk_size v)
unfolding from_pair str_eq
from_pair_blksize v h = rw (from_str-to_string v h)

-- An option is what its pair stands for.
from_pair-to_pair :
    (u : Unicode) (o : TftpOption)
    → IsOption u o
    → from_pair (to_lowercase u (to_pair o).0) (to_pair o).1 ≡ ok o
unfolding to_pair
from_pair-to_pair u (t_size v) h = rw to_lowercase_tsize (from_pair_tsize v h)
from_pair-to_pair u (blk_size v) h = rw to_lowercase_blksize (from_pair_blksize v h)
from_pair-to_pair u (unrecognized key value) h =
    rw h.lower (from_pair_other key value h.other.0 h.other.1)

same_key-key_of : (o p : TftpOption) → same_key o p ≡ true → key_of o ≡ key_of p
unfolding same_key to_pair
same_key-key_of (t_size v) (t_size w) h = refl
same_key-key_of (blk_size v) (blk_size w) h = refl
same_key-key_of (unrecognized k v) (unrecognized l w) h = (str_eq_iff k l).0 h
same_key-key_of (t_size v) _ h = cc
same_key-key_of (blk_size v) _ h = cc
same_key-key_of (unrecognized k v) _ h = cc

no_duplicate :
    (acc : List TftpOption) (o : TftpOption)
    → AreApart o acc
    → options_contain_duplicate acc o ≡ false
unfolding options_contain_duplicate
no_duplicate [] o h = refl
no_duplicate (a ∷ acc) o h = ground (arith, same_key-key_of o a, no_duplicate acc o h.1)

module _ (u : Unicode) (key value rest : Bytes) (kt : IsText u key) (vt : IsText u value) where
  -- One round of the loop over an option that it takes.
  round_taken :
      (fuel : ℕ) (acc : List TftpOption) (o : TftpOption)
      → from_pair (to_lowercase u key) value ≡ ok o
      → options_contain_duplicate acc o ≡ false
      → parse_options_from (suc fuel) u (key ++ 0 ∷ (value ++ 0 ∷ rest)) acc
        ≡ parse_options_from fuel u rest (acc ++ o ∷ [])
  unfolding parse_options_from
  round_taken fuel acc o p d = rw (
    is_empty-terminated key (value ++ 0 ∷ rest),
    read_string-append u key (value ++ 0 ∷ rest) kt,
    read_string-append u value rest vt,
    ◌>>=◌,
    p,
    d,
  )

  -- One round over an option whose value is no number: the input is the same afterwards.
  round_invalid :
      (fuel : ℕ) (acc : List TftpOption) (e : OptionError)
      → from_pair (to_lowercase u key) value ≡ err e
      → parse_options_from (suc fuel) u (key ++ 0 ∷ (value ++ 0 ∷ rest)) acc
        ≡ parse_options_from fuel u (key ++ 0 ∷ (value ++ 0 ∷ rest)) acc
  unfolding parse_options_from
  round_invalid fuel acc e p = rw (
    is_empty-terminated key (value ++ 0 ∷ rest),
    read_string-append u key (value ++ 0 ∷ rest) kt,
    read_string-append u value rest vt,
    ◌>>=◌,
    p,
  )

AreApart-append :
    (o : TftpOption) (acc : List TftpOption) (p : TftpOption)
    → AreApart o acc
    → key_of p ≢ key_of o
    → AreApart o (acc ++ p ∷ [])
AreApart-append o [] p h n = (n, tt)
AreApart-append o (a ∷ acc) p h n = (h.0, AreApart-append o acc p h.1 n)

-- Each of the options has a key that none of `acc` has.
abbrev AreNew : List TftpOption → List TftpOption → Type 0
AreNew acc = All (λ o. AreApart o acc)

AreNew-append :
    (o : TftpOption) (acc os : List TftpOption)
    → AreNew acc os
    → AreApart o os
    → AreNew (acc ++ o ∷ []) os
AreNew-append o acc [] h d = tt
AreNew-append o acc (p ∷ os) h d =
    (AreApart-append p acc o h.0 (λ e. d.0 (sym e)), AreNew-append o acc os h.1 d.1)

parse_options_empty :
    (u : Unicode) (fuel : ℕ) (acc : List TftpOption)
    → parse_options_from (suc fuel) u (print_options []) acc ≡ ok acc
unfolding parse_options_from print_options
parse_options_empty u fuel acc = refl

parse_options_next :
    (u : Unicode) (o : TftpOption) (os : List TftpOption) (fuel : ℕ) (acc : List TftpOption)
    → IsOption u o
    → AreApart o acc
    → parse_options_from (suc fuel) u (print_options (o ∷ os)) acc
      ≡ parse_options_from fuel u (print_options os) (acc ++ o ∷ [])
unfolding print_options
parse_options_next u o os fuel acc w n =
    round_taken u (to_pair o).0 (to_pair o).1 (print_options os) (pair-IsText u o w).0
      (pair-IsText u o w).1 fuel acc o (from_pair-to_pair u o w) (no_duplicate acc o n)

-- Well-formed options with distinct keys are read back as they were printed.
parse_options_from-print :
    (u : Unicode) (os : List TftpOption) (fuel : ℕ) (acc : List TftpOption)
    → All (IsOption u) os
    → AreDistinct os
    → AreNew acc os
    → length os < fuel
    → parse_options_from fuel u (print_options os) acc ≡ ok (acc ++ os)
parse_options_from-print u [] zero acc w d n f = absurd (omega arith)
parse_options_from-print u [] (suc fuel) acc w d n f =
    rw append-nil (parse_options_empty u fuel acc)
parse_options_from-print u (o ∷ os) zero acc w d n f = absurd (omega arith)
parse_options_from-print u (o ∷ os) (suc fuel) acc w d n f =
    parse_options_next u o os fuel acc w.0 n.0
    ∙ parse_options_from-print u os fuel (acc ++ o ∷ []) w.1 d.1 (AreNew-append o acc os n.1 d.0)
        (omega arith)
    ∙ ap ok (append_assoc acc (o ∷ []) os)

AreNew-nil : (os : List TftpOption) → AreNew [] os
AreNew-nil [] = tt
AreNew-nil (o ∷ os) = (tt, AreNew-nil os)

pub parse_options-print :
    (u : Unicode) (os : List TftpOption) (fuel : ℕ)
    → All (IsOption u) os
    → AreDistinct os
    → length os < fuel
    → parse_options_from fuel u (print_options os) [] ≡ ok os
parse_options-print u os fuel w d f = parse_options_from-print u os fuel [] w d (AreNew-nil os) f
