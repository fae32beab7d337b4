-- ===== src/Tftp/State/Transfer/Download.antt =====
-- tftp/state.rs: whole downloads, from the request to the close, and the one that has no end.
use rack_director.Prelude.{
  ℕ, zero, suc, ◌+◌, ◌<◌, ◌≡◌, refl, ap, ◌∙◌, inl, some, List, [], ◌∷◌, Bytes, ok, ◌>>=◌, length,
  arith,
}
use rack_director.Tftp.Options.{TftpOption}
use rack_director.Tftp.Packet.{rrq, block_data, ack, oack}
use rack_director.Tftp.State.{
  Handler, continue, option_negotiation, reading, State, new, negotiated_block_size,
  negotiate_options, lift_io, start_reading, handle_read_request, handle_option_ack_with_state,
  answer_request, finish, dispatch, handle,
}
use rack_director.Tftp.State.Integrity.{ReadsFiles}
use rack_director.Tftp.State.Transfer.{client, download, client_oack, IsReadable, acknowledged}
use rack_director.Tftp.State.Transfer.Stuck.{IsEmptyBlock, no_bytes, stuck-IsEmptyBlock}
use rack_director.Tftp.State.Transfer.Rest.{read-Reads, rest-delivered, first_reading}

module _ {R : Type 0} {h : Handler R} (files : ReadsFiles h) {filename : Bytes}
    (readable : IsReadable h filename) where
  start_reading_lem :
      (s : State R) (mode : Bytes) (size' : ℕ) (r : R) (bytes : Bytes)
      → h.create_reader filename size' ≡ ok r
      → (h.read r).1 ≡ ok bytes
      → finish s (start_reading h filename mode size') ≡ (
        record s { state = reading (first_reading files readable mode bytes size' r) },
        continue (block_data 1 bytes),
      )
  unfolding start_reading finish lift_io
  start_reading_lem s mode size' r bytes o g = rw (o, lift_io, ◌>>=◌, g)

  -- Once reading starts, with blocks of at least one byte, the client gets the whole file.
  started-delivered :
      (fuel : ℕ) (s : State R) (mode : Bytes) (size' : ℕ)
      → 0 < size'
      → length (files.content filename) + 2 < fuel
      → client h fuel (finish s (start_reading h filename mode size')) []
        ≡ some (files.content filename)
  started-delivered fuel s mode size' p f =
      let (r, o, k) = readable.opens size' in
      let (bytes, g, k') = readable.reads r k in
      let (l, z) = files.opened filename size' r o in
      let q = read-Reads files readable size' r bytes z g in
      ap (λ x. client h fuel x []) (start_reading_lem s mode size' r bytes o g)
      ∙ rest-delivered files readable fuel s.max_timeouts
          (first_reading files readable mode bytes size' r) []
          (record { ready = k'; opened_with = q.size_kept; positive = p; last = q.last_block })
          (inl (omega (arith, q.shorter, ap length l)))
      ∙ ap some (q.whole ∙ l)

  negotiating : Bytes → TftpOption → List TftpOption → State R
  unfolding new
  negotiating mode o os = record new {
    state =
        option_negotiation
          (record { filename = filename; mode = mode; negotiated_options = o ∷ os; timeouts = 0 });
  }

  offer_options :
      (mode : Bytes) (o : TftpOption) (os : List TftpOption)
      → finish new (answer_request h filename mode (ok (o ∷ os)))
        ≡ (negotiating mode o os, continue (oack (o ∷ os)))
  unfolding finish answer_request negotiating
  offer_options mode o os = refl

  accept_options :
      (mode : Bytes) (o : TftpOption) (os : List TftpOption)
      → handle h (negotiating mode o os) (ack 0)
        ≡ finish
            (negotiating mode o os)
            (start_reading h filename mode (negotiated_block_size h (o ∷ os)))
  unfolding handle dispatch handle_option_ack_with_state finish negotiating
  accept_options mode o os = refl

  answer-delivered :
      (fuel : ℕ) (mode : Bytes) (negotiated : List TftpOption)
      → 0 < negotiated_block_size h negotiated
      → length (files.content filename) + 3 < fuel
      → client h fuel (finish new (answer_request h filename mode (ok negotiated))) []
        ≡ some (files.content filename)
  unfolding answer_request
  answer-delivered fuel mode [] p f =
      started-delivered fuel new mode 512 (omega arith) (omega arith)
  answer-delivered zero mode (o ∷ os) p f = absurd (omega arith)
  answer-delivered (suc fuel) mode (o ∷ os) p f =
      ap (λ x. client h (suc fuel) x []) (offer_options mode o os)
      ∙ client_oack h fuel (negotiating mode o os) (o ∷ os) []
      ∙ ap (λ x. client h fuel x []) (accept_options mode o os)
      ∙ started-delivered fuel (negotiating mode o os) mode (negotiated_block_size h (o ∷ os)) p
          (omega arith)

  -- The whole of a download: the request, the negotiation, and the blocks. Where the options can be
  -- negotiated to a block size that is not 0, and the file be opened and read without errors, a client
  -- that acknowledges each block gets the file, byte for byte, and the server closes the connection,
  -- within three rounds more than the file has bytes.
  pub download-content :
      (fuel : ℕ) (mode : Bytes) (os negotiated : List TftpOption)
      → negotiate_options h filename os ≡ ok negotiated
      → 0 < negotiated_block_size h negotiated
      → length (files.content filename) + 3 < fuel
      → download h fuel filename mode os ≡ some (files.content filename)
  unfolding download handle dispatch handle_read_request new
  download-content fuel mode os negotiated e p f = rw e (answer-delivered fuel mode negotiated p f)

  started-IsEmptyBlock :
      (n : ℕ) (s : State R) (mode : Bytes) (size' : ℕ)
      → size' ≡ 0
      → IsEmptyBlock (n + 1) (acknowledged h n (finish s (start_reading h filename mode size')))
  started-IsEmptyBlock n s mode size' e =
      let (r, o, k) = readable.opens size' in
      let (bytes, g, k') = readable.reads r k in
      let (l, z) = files.opened filename size' r o in
      let (b, _, w) = files.next_block r bytes g in
      let (s', q) =
        stuck-IsEmptyBlock files readable n s.max_timeouts 1
          (first_reading files readable mode bytes size' r)
          (record {
            ready = k';
            empty = no_bytes files readable r bytes (z ∙ e) g;
            number = refl;
            no_room = e;
            reads_nothing = w ∙ z ∙ e;
          }) in
      (s', ap (acknowledged h n) (start_reading_lem s mode size' r bytes o g) ∙ q)

  -- A download whose negotiated block size is 0, of a file that is opened and read without errors,
  -- never ends: after the client has acknowledged the options and any number of blocks, the connection
  -- is open and the answer is one more block, empty as all of them, with the next number modulo 2^16.
  pub download-endless :
      (n : ℕ) (mode : Bytes) (os : List TftpOption) (o : TftpOption) (rest : List TftpOption)
      → negotiate_options h filename os ≡ ok (o ∷ rest)
      → negotiated_block_size h (o ∷ rest) ≡ 0
      → IsEmptyBlock (n + 1) (acknowledged h (suc n) (handle h new (rrq filename mode os)))
  unfolding handle dispatch handle_read_request new
  download-endless n mode os o rest e z =
      let (s, q) =
        started-IsEmptyBlock n (negotiating mode o rest) mode (negotiated_block_size h (o ∷ rest))
          z in
      (
        s,
        rw e (
            ap (acknowledged h (suc n)) (offer_options mode o rest)
            ∙ ap (acknowledged h n) (accept_options mode o rest)
            ∙ q),
      )
