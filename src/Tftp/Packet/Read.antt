-- ===== src/Tftp/Packet/Read.antt =====
-- packet.rs: reading back one number or one text from the front of a buffer.
use native.Mathlib.Numerals.{add-one}
use rack_director.Prelude.{
  ℕ, suc, ◌+◌, ◌<◌, ◌≡◌, ◌≢◌, refl, sym, ap, ◌∙◌, some, List, [], ◌∷◌, ◌++◌, append_assoc,
  append-nil, Bytes, length, take, drop, position, is_empty, All, ◌==◌, false, ok, arith,
}
use rack_director.Tftp.Unicode.{Unicode, IsText}
use rack_director.Tftp.Options.{TftpOption, to_pair}
use rack_director.Tftp.Packet.{write_u16, write_string, write_options, read_u16, read_string}

position_nul :
    (s rest : Bytes) → All (λ c. c ≢ 0) s → position (λ c. c == 0) (s ++ 0 ∷ rest) ≡ some (length s)
position_nul [] rest h = refl
position_nul (c ∷ s) rest h = ground (arith, position_nul s rest h.1)

take-length-append : (s t : Bytes) → take (length s) (s ++ t) ≡ s
take-length-append [] t = refl
take-length-append (c ∷ s) t = ap (◌∷◌ c) (take-length-append s t)

drop_past : (s : Bytes) (c : ℕ) (rest : Bytes) → drop (length s + 1) (s ++ c ∷ rest) ≡ rest
drop_past s c rest = rw add-one (go s)
  where
    go : (s : Bytes) → drop (suc (length s)) (s ++ c ∷ rest) ≡ rest
    go [] = refl
    go (x ∷ s) = go s

-- A text in front of its terminator is read back whole.
pub read_string-append :
    (u : Unicode) (s rest : Bytes) → IsText u s → read_string u (s ++ 0 ∷ rest) ≡ ok (s, rest)
unfolding read_string
read_string-append u s rest t = rw (
  position_nul s rest t.no_nul,
  read_string,
  take-length-append s (0 ∷ rest),
  drop_past s 0 rest,
  t.utf8,
)

pub read_u16-write :
    (n : ℕ) (rest : Bytes) → n < 65536 → read_u16 (write_u16 [] n ++ rest) ≡ ok (n, rest)
unfolding read_u16 write_u16
read_u16-write n rest h = ground arith

abbrev pub key_of : TftpOption → Bytes
key_of o = (to_pair o).0

-- The bytes of a list of options.
unfoldable pub print_options : List TftpOption → Bytes
print_options [] = []
print_options (o ∷ os) = (to_pair o).0 ++ 0 ∷ ((to_pair o).1 ++ 0 ∷ print_options os)

pub write_options-print :
    (buf : Bytes) (os : List TftpOption) → write_options buf os ≡ buf ++ print_options os
unfolding write_options write_string print_options
write_options-print buf [] = sym (append-nil buf)
write_options-print buf (o ∷ os) =
    write_options-print ((((buf ++ key_of o) ++ 0 ∷ []) ++ (to_pair o).1) ++ 0 ∷ []) os
    ∙ simp append_assoc

pub is_empty-terminated : (s rest : Bytes) → is_empty (s ++ 0 ∷ rest) ≡ false
is_empty-terminated [] rest = refl
is_empty-terminated (c ∷ s) rest = refl
