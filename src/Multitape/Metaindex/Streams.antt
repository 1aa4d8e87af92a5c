-- ===== src/Multitape/Metaindex/Streams.antt =====
-- The three streams of an archive's index in one buffer.
use tarsnap.Base.{
  ℕ, ◌+◌, ◌^◌, ◌<◌, ◌≡◌, refl, Bool, true, List, [], ◌++◌, arith, ◌==◌, if◌then◌else◌, length,
  length-append,
}
use tarsnap.Base.Endian.{Endian}
use tarsnap.Multitape.Wire.{decoded, allocate, get_bytes-append, get_bytes_all, allocate_lem}
use tarsnap.Multitape.Metaindex.{Tapemetaindex, Hashes, enc_streams, get_stream, dec_streams}

module _ (le : Endian) (hs : Hashes) (alloc : ℕ → Bool) (plenty : (n : ℕ) → alloc n ≡ true) where
  stream_room : (n : ℕ) → (if n == 0 then decoded tt else allocate alloc n) ≡ decoded tt
  stream_room n = rw (allocate_lem alloc n (plenty n)) (ground arith)

  get_stream-append :
      (index rest : List ℕ)
      → length index < 2 ^ 32
      → get_stream le hs alloc (le.le32enc (length index) ++ (index ++ rest))
        ≡ decoded (index, rest)
  unfolding get_stream
  get_stream-append index rest small =
      let count = le.le32dec-le32enc (length index) small in
      rw
        (get_bytes-append 4 (le.le32enc (length index)) (index ++ rest)
          (le.length-le32enc (length index)))
        (rw count (
          rw (get_bytes-append (length index) index rest refl)
            (rw (stream_room (length index)) refl)))

  get_stream_last :
      (index : List ℕ)
      → length index < 2 ^ 32
      → get_stream le hs alloc (le.le32enc (length index) ++ index) ≡ decoded (index, [])
  unfolding get_stream
  get_stream_last index small =
      let count = le.le32dec-le32enc (length index) small in
      rw (get_bytes-append 4 (le.le32enc (length index)) index (le.length-le32enc (length index))) (
        rw count
          (rw (get_bytes_all (length index) index refl) (rw (stream_room (length index)) refl)))

  -- The index that is encoded decodes to itself, where memory does not run out and each stream's
  -- length fits in 32 bits.
  pub dec_streams-enc_streams :
      (mind : Tapemetaindex)
      → length mind.hindex < 2 ^ 32
      → length mind.cindex < 2 ^ 32
      → length mind.tindex < 2 ^ 32
      → dec_streams le hs alloc (enc_streams le hs alloc mind) ≡ decoded mind
  unfolding dec_streams enc_streams
  dec_streams-enc_streams mind h c t =
      rw (get_stream-append mind.hindex _ h)
        (rw (get_stream-append mind.cindex _ c) (rw (get_stream_last mind.tindex t) refl))

  pub length-enc_streams :
      (mind : Tapemetaindex)
      → length (enc_streams le hs alloc mind)
        ≡ 12 + length mind.hindex + length mind.cindex + length mind.tindex
  unfolding enc_streams
  length-enc_streams mind = grind (arith, length-append, le.length-le32enc)
