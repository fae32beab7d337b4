-- ===== src/Tftp/Options.antt =====
-- tftp/options.rs: the options of a request, as pairs of texts and as values.
use rack_director.Prelude.{
  ℕ, Option, none, some, Bytes, codes, str_eq, Result, ok, err, if◌then◌else◌,
}
use rack_director.Tftp.Decimal

pub data OptionError : Type 0 where
  invalid_value : OptionError

-- The numbers are u64.
pub data TftpOption : Type 0 where
  t_size : ℕ → TftpOption
  blk_size : ℕ → TftpOption
  unrecognized : Bytes → Bytes → TftpOption

abbrev pub tsize_key : Bytes
tsize_key = codes "tsize"

abbrev pub blksize_key : Bytes
blksize_key = codes "blksize"

numeric : (ℕ → TftpOption) → Option ℕ → Result OptionError TftpOption
numeric make none = err invalid_value
numeric make (some v) = ok (make v)

unfoldable pub from_pair : Bytes → Bytes → Result OptionError TftpOption
unfolding numeric
from_pair key value =
    if str_eq key tsize_key
    then numeric t_size (Decimal.from_str value)
    else if str_eq key blksize_key
    then numeric blk_size (Decimal.from_str value)
    else ok (unrecognized key value)

unfoldable pub to_pair : TftpOption → Bytes × Bytes
to_pair (t_size v) = (tsize_key, Decimal.to_string v)
to_pair (blk_size v) = (blksize_key, Decimal.to_string v)
to_pair (unrecognized key value) = (key, value)
