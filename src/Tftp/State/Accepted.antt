-- ===== src/Tftp/State/Accepted.antt =====
-- tftp/state.rs: which options `negotiate_options` takes.
use rack_director.Prelude.{
  ℕ, ◌≡◌, sym, ap, ◌∙◌, Bool, true, false, Bool-cases, inl, inr, List, [], ◌∷◌, ◌++◌, append_assoc,
  append-nil, Bytes, ok, err, ◌>>=◌, leb, if◌then◌else◌,
}
use rack_director.Tftp.Reader.{IoError}
use rack_director.Tftp.Options.{TftpOption, t_size, blk_size, unrecognized}
use rack_director.Tftp.State.{Handler, negotiate_from, negotiate_options}

-- The answer to the options of a request for a file of the given length: its length for `tsize`, and
-- each block size below 10000; all in the order of the request.
abbrev pub accepted : ℕ → List TftpOption → List TftpOption
accepted filelen [] = []
accepted filelen (t_size _ ∷ os) = t_size filelen ∷ accepted filelen os
accepted filelen (blk_size size ∷ os) =
    if leb 10000 size then accepted filelen os else blk_size size ∷ accepted filelen os
accepted filelen (unrecognized _ _ ∷ os) = accepted filelen os

-- The request asks for the length of the file.
abbrev pub asks_size : List TftpOption → Bool
asks_size [] = false
asks_size (t_size _ ∷ os) = true
asks_size (blk_size _ ∷ os) = asks_size os
asks_size (unrecognized _ _ ∷ os) = asks_size os

module _ {R : Type 0} (h : Handler R) (filename : Bytes) where
  negotiate_from-accepted :
      (filelen : ℕ) (negotiated os : List TftpOption)
      → h.filesize filename ≡ ok filelen
      → negotiate_from h filename negotiated os ≡ ok (negotiated ++ accepted filelen os)
  unfolding negotiate_from
  negotiate_from-accepted filelen negotiated [] e = ap ok (sym (append-nil negotiated))
  negotiate_from-accepted filelen negotiated (t_size n ∷ os) e =
      rw (e, ◌>>=◌)
        (negotiate_from-accepted filelen (negotiated ++ t_size filelen ∷ []) os e
          ∙ ap ok (append_assoc negotiated (t_size filelen ∷ []) (accepted filelen os)))
  negotiate_from-accepted filelen negotiated (blk_size size ∷ os) e =
      elim (Bool-cases (leb 10000 size)) [
        | inl big ↦ rw big (negotiate_from-accepted filelen negotiated os e)
        | inr small ↦ rw small (
            negotiate_from-accepted filelen (negotiated ++ blk_size size ∷ []) os e
            ∙ ap ok (append_assoc negotiated (blk_size size ∷ []) (accepted filelen os)))
      ]
  negotiate_from-accepted filelen negotiated (unrecognized _ _ ∷ os) e =
      negotiate_from-accepted filelen negotiated os e

  negotiate_from-fails :
      (failure : IoError) (negotiated os : List TftpOption)
      → h.filesize filename ≡ err failure
      → asks_size os ≡ true
      → negotiate_from h filename negotiated os ≡ err failure
  unfolding negotiate_from
  negotiate_from-fails failure negotiated [] e q = cc
  negotiate_from-fails failure negotiated (t_size n ∷ os) e q = rw (e, ◌>>=◌)
  negotiate_from-fails failure negotiated (blk_size size ∷ os) e q =
      negotiate_from-fails failure
        (if leb 10000 size then negotiated else negotiated ++ blk_size size ∷ []) os e q
  negotiate_from-fails failure negotiated (unrecognized _ _ ∷ os) e q =
      negotiate_from-fails failure negotiated os e q

  -- If the length of the file can be had, the negotiated options are, in the order of the request,
  -- that length for each `tsize`, each `blksize` below 10000 as it is, and nothing else.
  pub negotiate_options-accepted :
      (filelen : ℕ) (os : List TftpOption)
      → h.filesize filename ≡ ok filelen
      → negotiate_options h filename os ≡ ok (accepted filelen os)
  unfolding negotiate_options
  negotiate_options-accepted filelen os e = negotiate_from-accepted filelen [] os e

  -- If the length of the file cannot be had, the negotiation of a request that asks for it fails with
  -- that error.
  negotiate_options-fails :
      (failure : IoError) (os : List TftpOption)
      → h.filesize filename ≡ err failure
      → asks_size os ≡ true
      → negotiate_options h filename os ≡ err failure
  unfolding negotiate_options
  negotiate_options-fails failure os e q = negotiate_from-fails failure [] os e q
