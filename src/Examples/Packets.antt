-- ===== src/Examples/Packets.antt =====
-- Packets of tftp/packet.rs, read and written.
use rack_director.Prelude.{
  ℕ, ◌≡◌, ◌≢◌, ap, str_eq, ◌++◌, refl, inr, none, [], ◌∷◌, Bytes, codes, ok, err, arith, take, suc,
}
use rack_director.Tftp.Unicode.{ascii_only, IsText, from_utf8_lossy, to_lowercase}
use rack_director.Tftp.Decimal.{from_str}
use rack_director.Tftp.Options.{from_pair, to_pair, t_size, blk_size, tsize_key, blksize_key}
use rack_director.Tftp.Packet.{
  Packet, rrq, to_bytes, parse, out_of_fuel, too_short, read_u16, read_string, parse_options_from,
}
use rack_director.Tftp.Packet.RoundTrip.{AreOptions, parse-to_bytes}
use rack_director.Tftp.Packet.Stalls.{Stalls, request_endless, parse_options-Stalls}
use rack_director.Tftp.Connection.{listen, buffer_size}
use rack_director.Tftp.Connection.Laws.{listen_ends}

abbrev request : Packet
request = rrq (codes "a") (codes "octet") (t_size 0 ∷ blk_size 1024 ∷ [])

texts_hold : IsText ascii_only (codes "a") × IsText ascii_only (codes "octet")
unfolding from_utf8_lossy
texts_hold =
    (record { utf8 = refl; no_nul = omega arith }, record { utf8 = refl; no_nul = omega arith })

keys_apart : blksize_key ≢ tsize_key
keys_apart e = let same : 98 ≡ 116 = ap first_of e in omega (arith, same)
  where
    first_of : Bytes → ℕ
    first_of [] = 0
    first_of (c ∷ _) = c

options_hold : AreOptions ascii_only (t_size 0 ∷ blk_size 1024 ∷ [])
unfolding to_pair
options_hold = ((omega arith, (omega arith, tt)), ((keys_apart, tt), (tt, tt)))

parse-to_bytes_example : parse 3 ascii_only (to_bytes request) ≡ ok request
parse-to_bytes_example =
    parse-to_bytes ascii_only 3 request (texts_hold.0, texts_hold.1, options_hold) (omega arith)

option_IsText : IsText ascii_only (codes "blksize") × IsText ascii_only (codes "big")
unfolding from_utf8_lossy
option_IsText =
    (record { utf8 = refl; no_nul = omega arith }, record { utf8 = refl; no_nul = omega arith })

blksize_lower : to_lowercase ascii_only (codes "blksize") ≡ blksize_key
unfolding to_lowercase
blksize_lower = refl

big_no_number : from_str (codes "big") ≡ none
unfolding from_str
big_no_number = refl

request_endless_example :
    parse 1000 ascii_only (
      0
      ∷ 1
      ∷ (codes "a" ++ 0 ∷ (codes "octet" ++ 0 ∷ (codes "blksize" ++ 0 ∷ (codes "big" ++ 0 ∷ [])))))
    ≡ err out_of_fuel
request_endless_example =
    request_endless ascii_only 1000 (codes "a") (codes "octet") (codes "blksize") (codes "big") []
      texts_hold.0 texts_hold.1 option_IsText.0 option_IsText.1 (inr blksize_lower) big_no_number

empty_bad : parse (suc buffer_size) ascii_only (take buffer_size []) ≡ err too_short
unfolding parse read_u16
empty_bad = refl

abbrev good : Bytes
good = to_bytes (rrq (codes "a") (codes "octet") [])

listen_ends_example :
    listen ascii_only ((good ∷ []) ++ [] ∷ good ∷ []) ≡ listen ascii_only ((good ∷ []) ++ [] ∷ [])
listen_ends_example = listen_ends ascii_only (good ∷ []) (good ∷ []) [] too_short empty_bad

abbrev endless : Bytes
endless = codes "blksize" ++ 0 ∷ (codes "big" ++ 0 ∷ [])

endless_runs_out : parse_options_from 13 ascii_only endless [] ≡ err out_of_fuel
unfolding parse_options_from read_string from_pair str_eq to_lowercase from_str
endless_runs_out = refl

parse_options-Stalls_example : Stalls ascii_only [] endless
parse_options-Stalls_example =
    parse_options-Stalls ascii_only 13 [] endless (omega arith) endless_runs_out
