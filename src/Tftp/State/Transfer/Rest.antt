-- ===== src/Tftp/State/Transfer/Rest.antt =====
-- tftp/state.rs: from any block of a transfer, the client gets the rest of the file.
use rack_director.Prelude.{
  ℕ, zero, suc, ◌+◌, ◌-◌, ◌<◌, ◌≡◌, refl, sym, ap, subst, ◌∙◌, inl, inr, false, Bool-cases, some,
  [], ◌∷◌, ◌++◌, append_assoc, append-nil, Bytes, ok, length, length-take, length-drop, take, drop,
  take-append-drop, drop_nil, ◌⊎◌, ltb, ltb→lt, arith, min,
}
use rack_director.Tftp.Packet.{block_data}
use rack_director.Tftp.State.{Handler, continue, Reading, reading, complete}
use rack_director.Tftp.State.Integrity.{ReadsFiles}
use rack_director.Tftp.State.Transfer.{
  client, client_block, client-closed, IsReadable, at_state, advanced, handle_last, handle_next,
}

module _ {R : Type 0} {h : Handler R} (files : ReadsFiles h) {filename : Bytes}
    (readable : IsReadable h filename) where
  -- The current block is full, or it is the last one.
  pub record IsOnWay (r : Reading R) : Type 0 where
    pub ready : readable.Ready r.reader
    pub opened_with : files.size r.reader ≡ r.block_size
    pub positive : 0 < r.block_size
    pub last : length r.bytes < r.block_size → files.left r.reader ≡ []

  short_block : (n : ℕ) (xs : Bytes) → length (take n xs) < n → drop n xs ≡ []
  short_block n [] l = drop_nil n
  short_block zero (x ∷ xs) l = absurd (omega arith)
  short_block (suc n) (x ∷ xs) l = short_block n xs (omega arith)

  -- Rounds enough for what is left: two for each byte are more than needed.
  abbrev pub IsEnough : ℕ → Reading R → Type 0
  IsEnough fuel r =
      (length (files.left r.reader) + 2 < fuel) ⊎ ((length r.bytes < r.block_size) × (1 < fuel))

  still-IsEnough :
      (fuel : ℕ) (r r' : Reading R)
      → 0 < r.block_size
      → ltb (length r.bytes) r.block_size ≡ false
      → IsEnough (suc (suc fuel)) r
      → length (files.left r'.reader) ≡ length (files.left r.reader) - r.block_size
      → length r'.bytes ≡ min r'.block_size (length (files.left r.reader))
      → r'.block_size ≡ r.block_size
      → IsEnough (suc fuel) r'
  still-IsEnough fuel r r' p t (inl f) l b z =
      elim (Bool-cases (ltb (length r'.bytes) r'.block_size)) [
        | inl s ↦ inr (ltb→lt _ _ s, omega arith)
        | inr s ↦ inl (ground arith)
      ]
  still-IsEnough fuel r r' p t (inr f) l b z = absurd (ground arith)

  -- What one read does to a reader that was opened with blocks of `size'` bytes.
  pub record Reads (size' : ℕ) (r : R) (bytes : Bytes) : Type 0 where
    pub size_kept : files.size (h.read r).0 ≡ size'
    pub last_block : length bytes < size' → files.left (h.read r).0 ≡ []
    pub whole : bytes ++ files.left (h.read r).0 ≡ files.left r
    pub shorter : length (files.left (h.read r).0) ≡ length (files.left r) - size'
    pub length_read : length bytes ≡ min size' (length (files.left r))

  pub read-Reads :
      (size' : ℕ) (r : R) (bytes : Bytes)
      → files.size r ≡ size'
      → (h.read r).1 ≡ ok bytes
      → Reads size' r bytes
  read-Reads size' r bytes o g =
      let (b, l, z) = files.next_block r bytes g in
      let b' : bytes ≡ take size' (files.left r) = b ∙ ap (λ n. take n (files.left r)) o in
      let l' : files.left (h.read r).0 ≡ drop size' (files.left r) =
        l ∙ ap (λ n. drop n (files.left r)) o in
      record {
        size_kept = z ∙ o;
        last_block =
            λ s. l' ∙ short_block size' (files.left r) (subst (λ x. length x < size') b' s);
        whole = rw (b', l') (take-append-drop size' (files.left r));
        shorter = ap length l' ∙ length-drop size' (files.left r);
        length_read = ap length b' ∙ length-take size' (files.left r);
      }

  -- From a state on its way, the client gets the rest of the file, and the connection is closed.
  pub rest-delivered :
      (fuel m : ℕ) (r : Reading R) (received : Bytes)
      → IsOnWay r
      → IsEnough fuel r
      → client h fuel (at_state m (reading r), continue (block_data r.block r.bytes)) received
        ≡ some (received ++ (r.bytes ++ files.left r.reader))
  unfolding client
  rest-delivered zero m r received w f = absurd (omega arith)
  rest-delivered (suc zero) m r received w f = absurd (omega arith)
  rest-delivered (suc (suc fuel)) m r received w f =
      elim (Bool-cases (ltb (length r.bytes) r.block_size)) [
        | inl t ↦
            client_block h (suc fuel) (at_state m (reading r)) r.block r.bytes received
            ∙ ap (λ x. client h (suc fuel) x (received ++ r.bytes)) (handle_last h m r t)
            ∙ client-closed h fuel (at_state m complete) (received ++ r.bytes)
            ∙ ap (λ x. some (received ++ x))
                (sym (append-nil r.bytes) ∙ ap (◌++◌ r.bytes) (sym (w.last (ltb→lt _ _ t))))
        | inr t ↦
            let (bytes, g, k) = readable.reads r.reader w.ready in
            let p = read-Reads r.block_size r.reader bytes w.opened_with g in
            let w' : IsOnWay (advanced h r bytes) = record {
              ready = k;
              opened_with = p.size_kept;
              positive = w.positive;
              last = p.last_block;
            } in
            client_block h (suc fuel) (at_state m (reading r)) r.block r.bytes received
            ∙ ap (λ x. client h (suc fuel) x (received ++ r.bytes)) (handle_next h m r bytes t g)
            ∙ rest-delivered (suc fuel) m (advanced h r bytes) (received ++ r.bytes) w' (
                still-IsEnough fuel r (advanced h r bytes) w.positive t f p.shorter p.length_read
                  refl)
            ∙ ap some
                (append_assoc received r.bytes _ ∙ ap (λ x. received ++ (r.bytes ++ x)) p.whole)
      ]

  abbrev pub first_reading : Bytes → Bytes → ℕ → R → Reading R
  first_reading mode bytes size' r = record {
    filename = filename;
    mode = mode;
    block = 1;
    reader = (h.read r).0;
    bytes = bytes;
    timeouts = 0;
    block_size = size';
  }
