-- ===== src/Tftp/Packet/Stalls.antt =====
-- packet.rs: when the loop of `parse_options` ends, and when it never does.
use rack_director.Prelude.{
  ℕ, zero, suc, ◌+◌, ◌<◌, ◌≡◌, ◌≢◌, refl, ◌⊎◌, inl, inr, sym, ap, ◌∙◌, Option-cases, Bool-cases,
  none, List, [], ◌∷◌, ◌++◌, Bytes, str_eq, length, length-drop, position, drop, is_empty, ◌==◌,
  false, Result-cases, ok, err, ◌>>=◌, arith,
}
use rack_director.Tftp.Decimal.{from_str}
use rack_director.Tftp.Unicode.{Unicode, to_lowercase, IsText}
use rack_director.Tftp.Options.{
  TftpOption, OptionError, invalid_value, from_pair, tsize_key, blksize_key,
}
use rack_director.Tftp.Packet.{
  out_of_fuel, read_string, options_contain_duplicate, parse_options_from, parse_request, read_u16,
  parse,
}
use rack_director.Tftp.Packet.Read.{read_string-append, is_empty-terminated}

-- The next two texts of `bytes` are `key` and `value`, and `rest` follows.
pub record HasPair (u : Unicode) (bytes key value rest : Bytes) : Type 0 where
  pub more : is_empty bytes ≡ false
  pub middle : Bytes
  pub key_read : read_string u bytes ≡ ok (key, middle)
  pub value_read : read_string u middle ≡ ok (value, rest)

-- Past options that are taken, the loop meets one whose value is no number.
pub data Stalls (u : Unicode) : List TftpOption → Bytes → Type 0 where
  invalid :
      {acc : List TftpOption} {bytes : Bytes} (key value rest : Bytes) (e : OptionError)
      → HasPair u bytes key value rest
      → from_pair (to_lowercase u key) value ≡ err e
      → Stalls u acc bytes
  taken :
      {acc : List TftpOption} {bytes : Bytes} (key value rest : Bytes) (o : TftpOption)
      → HasPair u bytes key value rest
      → from_pair (to_lowercase u key) value ≡ ok o
      → options_contain_duplicate acc o ≡ false
      → Stalls u (acc ++ o ∷ []) rest
      → Stalls u acc bytes

-- Where it stalls, no number of rounds is enough.
pub Stalls-endless :
    (u : Unicode) (fuel : ℕ) (acc : List TftpOption) (bytes : Bytes)
    → Stalls u acc bytes
    → parse_options_from fuel u bytes acc ≡ err out_of_fuel
unfolding parse_options_from
Stalls-endless u zero acc bytes s = refl
Stalls-endless u (suc fuel) acc bytes (invalid key value rest e h p) =
    rw (h.more, h.key_read, ◌>>=◌, h.value_read, ◌>>=◌, p)
      (Stalls-endless u fuel acc bytes (invalid key value rest e h p))
Stalls-endless u (suc fuel) acc bytes (taken key value rest o h p d s) =
    rw (h.more, h.key_read, ◌>>=◌, h.value_read, ◌>>=◌, p, d)
      (Stalls-endless u fuel (acc ++ o ∷ []) rest s)

read_string-shorter :
    (u : Unicode) (bytes s rest : Bytes)
    → read_string u bytes ≡ ok (s, rest)
    → length rest < length bytes
unfolding read_string
read_string-shorter u [] s rest h = cc
read_string-shorter u (c ∷ bytes) s rest h =
    elim (Option-cases (position (λ c. c == 0) (c ∷ bytes))) [
      | inl e ↦ let k = rw (e, read_string) at h in cc
      | inr (i, e) ↦
          let k = rw (e, read_string) at h in
          let d : drop (i + 1) (c ∷ bytes) ≡ rest = cc in
          omega (arith, ap length d, length-drop (i + 1) (c ∷ bytes))
    ]

read_string-ne-fuel : (u : Unicode) (bytes : Bytes) → read_string u bytes ≢ err out_of_fuel
unfolding read_string
read_string-ne-fuel u bytes h = ground arith

-- What one round does, by cases.
data Round (u : Unicode) (fuel : ℕ) (acc : List TftpOption) (bytes : Bytes) : Type 0 where
  ended : parse_options_from (suc fuel) u bytes acc ≢ err out_of_fuel → Round u fuel acc bytes
  again :
      (key value rest : Bytes) (e : OptionError)
      → HasPair u bytes key value rest
      → from_pair (to_lowercase u key) value ≡ err e
      → Round u fuel acc bytes
  onward :
      (key value rest : Bytes) (o : TftpOption)
      → HasPair u bytes key value rest
      → from_pair (to_lowercase u key) value ≡ ok o
      → options_contain_duplicate acc o ≡ false
      → length rest < length bytes
      → parse_options_from (suc fuel) u bytes acc ≡ parse_options_from fuel u rest (acc ++ o ∷ [])
      → Round u fuel acc bytes

module _ (u : Unicode) (fuel : ℕ) (acc : List TftpOption) (bytes : Bytes) where
  Round-of_pair :
      (key value rest : Bytes)
      → HasPair u bytes key value rest
      → length rest < length bytes
      → Round u fuel acc bytes
  unfolding parse_options_from
  Round-of_pair key value rest h l = elim (Result-cases (from_pair (to_lowercase u key) value)) [
    | inr (e, p) ↦ again key value rest e h p
    | inl (o, p) ↦ elim (Bool-cases (options_contain_duplicate acc o)) [
      | inl d ↦ ended (rw (h.more, h.key_read, ◌>>=◌, h.value_read, ◌>>=◌, p, d) (λ e. cc))
      | inr d ↦
          onward key value rest o h p d l
            (rw (h.more, h.key_read, ◌>>=◌, h.value_read, ◌>>=◌, p, d))
    ]
  ]

  Round-of_key :
      (key middle : Bytes)
      → is_empty bytes ≡ false
      → read_string u bytes ≡ ok (key, middle)
      → Round u fuel acc bytes
  unfolding parse_options_from
  Round-of_key key middle m h = elim (Result-cases (read_string u middle)) [
    | inr (e, k) ↦ ended (rw (m, h, ◌>>=◌, k, ◌>>=◌) (λ q. read_string-ne-fuel u middle (k ∙ cc)))
    | inl ((value, rest), k) ↦
        Round-of_pair key value rest
          (record { more = m; middle = middle; key_read = h; value_read = k })
          (omega (
            arith,
            read_string-shorter u bytes key middle h,
            read_string-shorter u middle value rest k,
          ))
  ]

  Round-cases : Round u fuel acc bytes
  unfolding parse_options_from
  Round-cases = elim (Bool-cases (is_empty bytes)) [
    | inl m ↦ ended (rw m (λ e. cc))
    | inr m ↦ elim (Result-cases (read_string u bytes)) [
      | inr (e, k) ↦ ended (rw (m, k, ◌>>=◌) (λ q. read_string-ne-fuel u bytes (k ∙ cc)))
      | inl ((key, middle), k) ↦ Round-of_key key middle m k
    ]
  ]

-- Where the loop over the options has not ended after more rounds than there are bytes, it stalls:
-- past options that are taken, it meets one whose value is no number and stays there. So the fuel
-- of one more than the bytes is enough for every input on which the loop ends.
pub parse_options-Stalls :
    (u : Unicode) (fuel : ℕ) (acc : List TftpOption) (bytes : Bytes)
    → length bytes < fuel
    → parse_options_from fuel u bytes acc ≡ err out_of_fuel
    → Stalls u acc bytes
parse_options-Stalls u zero acc bytes f h = absurd (omega arith)
parse_options-Stalls u (suc fuel) acc bytes f h = elim (Round-cases u fuel acc bytes) [
  | ended n ↦ absurd (n h)
  | again key value rest e p i ↦ invalid key value rest e p i
  | onward key value rest o p t d l e ↦
      taken key value rest o p t d
        (parse_options-Stalls u fuel (acc ++ o ∷ []) rest (omega arith) (sym e ∙ h))
]

from_pair_invalid :
    (key value : Bytes)
    → (key ≡ tsize_key) ⊎ (key ≡ blksize_key)
    → from_str value ≡ none
    → from_pair key value ≡ err invalid_value
unfolding from_pair str_eq
from_pair_invalid key value (inl k) v = rw (k, v)
from_pair_invalid key value (inr k) v = rw (k, v)

-- A read request whose first option is `tsize` or `blksize`, in any case, with a value that is no u64
-- keeps the parser in its loop however many rounds it is given; its texts are ones without NUL.
pub request_endless :
    (u : Unicode) (fuel : ℕ) (filename mode key value rest : Bytes)
    → IsText u filename
    → IsText u mode
    → IsText u key
    → IsText u value
    → (to_lowercase u key ≡ tsize_key) ⊎ (to_lowercase u key ≡ blksize_key)
    → from_str value ≡ none
    → parse fuel u (0 ∷ 1 ∷ (filename ++ 0 ∷ (mode ++ 0 ∷ (key ++ 0 ∷ (value ++ 0 ∷ rest)))))
      ≡ err out_of_fuel
unfolding parse parse_request read_u16
request_endless u fuel filename mode key value rest tf tm tk tv k v =
    rw
      (
        read_string-append u filename (mode ++ 0 ∷ (key ++ 0 ∷ (value ++ 0 ∷ rest))) tf,
        ◌>>=◌,
        read_string-append u mode (key ++ 0 ∷ (value ++ 0 ∷ rest)) tm,
        ◌>>=◌,
      )
      (rw (Stalls-endless u fuel [] (key ++ 0 ∷ (value ++ 0 ∷ rest)) stalls))
  where
    pair : HasPair u (key ++ 0 ∷ (value ++ 0 ∷ rest)) key value rest
    pair = record {
      more = is_empty-terminated key (value ++ 0 ∷ rest);
      middle = value ++ 0 ∷ rest;
      key_read = read_string-append u key (value ++ 0 ∷ rest) tk;
      value_read = read_string-append u value rest tv;
    }

    stalls : Stalls u [] (key ++ 0 ∷ (value ++ 0 ∷ rest))
    stalls =
        invalid key value rest invalid_value pair (from_pair_invalid (to_lowercase u key) value k v)
