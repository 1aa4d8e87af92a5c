-- ===== src/Multitape/Metaindex.antt =====
-- tar/multitape/multitape_metaindex.c: the index of an archive's three streams, stored in fragments.
-- The write transaction's state carries the storage layer, which the source also passes as `S`.
pub mod Streams
pub mod Roundtrip
use tarsnap.Base.{
  ℕ, zero, suc, ◌+◌, ◌-◌, ◌*◌, ◌%◌, ◌^◌, Bool, true, false, ◌||◌, Option, none, some, List, [], ◌∷◌,
  ◌++◌, ltb, leb, ◌==◌, if◌then◌else◌, length, take, drop, same_bytes,
}
use mathlib.Core.Option
use tarsnap.Chunks.Data.{Chunkstats, ChunkTable, chunks_stats_add}
use tarsnap.Chunks.Write.{Services, WriteState, chunks_write_extrastats}
use tarsnap.Base.Endian.{Endian}
use tarsnap.Multitape.Wire.{Decoded, decoded, corrupt, failed, and_then, allocate, get_bytes}
use tarsnap.Multitape.Metadata.{Tapemetadata}

-- `struct tapemetaindex`; a stream's length is that of its list.
pub record Tapemetaindex : Type 0 where
  pub hindex : List ℕ
  pub cindex : List ℕ
  pub tindex : List ℕ

abbrev pub maxifrag : ℕ
maxifrag = 261120

-- `crypto_hash_data` under CRYPTO_KEY_HMAC_NAME and CRYPTO_KEY_HMAC_SHA256, and `crypto_hash_data_2`
-- under the second; where the last fails the program ends.
pub record Hashes : Type 0 where
  pub hmac_name : List ℕ → Option (List ℕ)
  pub sha256 : List ℕ → Option (List ℕ)
  pub sha256_2 : List ℕ → List ℕ → List ℕ

-- What `storage_read_file` and `multitape_metaindex_get` return: 0 with the result, 1 if there is no
-- such file, 2 if it is corrupt, and -1 for an error.
pub data Found (A : Type 0) : Type 0 where
  found : A → Found A
  absent : Found A
  damaged : Found A
  error : Found A

-- `storage_read_file`, given the file's length, its class and its name.
abbrev pub Reader : Type 0
Reader = ℕ → ℕ → List ℕ → Found (List ℕ)

unfoldable pub chunks_stats_extrastats : Chunkstats → ℕ → Chunkstats
chunks_stats_extrastats tapee len = chunks_stats_add tapee len len 1

unfoldable pub fragment_length : ℕ → ℕ
fragment_length left = if ltb maxifrag left then maxifrag else left

unfoldable pub prepend : List ℕ → Found (List ℕ) → Found (List ℕ)
prepend frag (found rest) = found (frag ++ rest)
prepend frag absent = absent
prepend frag damaged = damaged
prepend frag error = error

unfoldable pub of_decoded : Decoded Tapemetaindex → Found Tapemetaindex
of_decoded (decoded mind) = found mind
of_decoded corrupt = damaged
of_decoded failed = error

module _ (le : Endian) (hs : Hashes) (alloc : ℕ → Bool) where
  open le use {le32enc, le32dec}
  open hs use {hmac_name, sha256, sha256_2}

  unfoldable pub multitape_metaindex_fragname : List ℕ → ℕ → List ℕ
  multitape_metaindex_fragname namehash fragnum = sha256_2 namehash (le32enc (fragnum % 2 ^ 32))

  unfoldable pub enc_streams : Tapemetaindex → List ℕ
  enc_streams mind =
      le32enc (length mind.hindex)
      ++ (mind.hindex
          ++ (le32enc (length mind.cindex)
              ++ (mind.cindex ++ (le32enc (length mind.tindex) ++ mind.tindex))))

  -- A stream's length and the stream. No memory is needed for one that is empty.
  unfoldable pub get_stream : List ℕ → Decoded (List ℕ × List ℕ)
  get_stream p = and_then (get_bytes 4 p) (λ (count, p1).
      and_then (get_bytes (le32dec count) p1) (λ (index, p2).
        and_then (if le32dec count == 0 then decoded tt else allocate alloc (le32dec count))
          (λ _. decoded (index, p2))))

  unfoldable pub dec_streams : List ℕ → Decoded Tapemetaindex
  dec_streams buf = and_then (get_stream buf) (λ (h, p1). and_then (get_stream p1) (λ (c, p2).
      and_then (get_stream p2) (λ (t, p3).
        if length p3 == 0
        then decoded (record { hindex = h; cindex = c; tindex = t })
        else corrupt)))

  -- The loop that stores the fragments, on what of the buffer is left; a round takes a byte at least.
  module _ (tab : ChunkTable) (sv : Services) where
    unfoldable pub write_fragments :
        ℕ → WriteState tab sv → List ℕ → ℕ → List ℕ → WriteState tab sv × Bool
    write_fragments zero C hbuf fragnum buf = (C, true)
    write_fragments (suc fuel) C hbuf fragnum buf =
        let frag = take (fragment_length (length buf)) buf in
        let name = multitape_metaindex_fragname hbuf fragnum in
        let sent = sv.storage_write_file C.store frag b'i' name in
        let C1 : WriteState tab sv = record C { store = sent.0 } in
        let rest =
          write_fragments fuel (chunks_write_extrastats tab sv C1 (length frag)) hbuf (fragnum + 1)
            (drop (fragment_length (length buf)) buf) in
        if length buf == 0 then (C, true) else if sent.1 then rest else (C1, false)

    -- The metadata with the index's length and hash; -1 is `none`.
    unfoldable pub multitape_metaindex_put :
        WriteState tab sv → Tapemetaindex → Tapemetadata → WriteState tab sv × Option Tapemetadata
    multitape_metaindex_put C mind mdat =
        let buf = enc_streams mind in
        let total = 12 + length mind.hindex + length mind.cindex + length mind.tindex in
        if leb (2 ^ 32) (length mind.hindex)
        then (C, none)
        else if leb (2 ^ 32) (length mind.cindex)
        then (C, none)
        else if leb (2 ^ 32) (length mind.tindex)
        then (C, none)
        else if leb (2 ^ 64) total
        then (C, none)
        else if alloc total
        then elim (hmac_name mdat.name) [
          | none ↦ (C, none)
          | some hbuf ↦
              let (C1, ok) = write_fragments total C hbuf 0 buf in
              if ok
              then (
                C1,
                Option.map (λ (hash : List ℕ). record mdat { indexhash = hash; indexlen = total })
                    (sha256 buf),
              )
              else (C1, none)
        ]
        else (C, none)

  -- The loop that reads `left` bytes, with the statistics of `C` unless it is NULL.
  unfoldable pub read_fragments :
      Reader → ℕ → Option Chunkstats → List ℕ → ℕ → ℕ → Option Chunkstats × Found (List ℕ)
  read_fragments storage_read_file zero stats hbuf fragnum left = (stats, found [])
  read_fragments storage_read_file (suc fuel) stats hbuf fragnum left =
      let fraglen = fragment_length left in
      let rest =
        read_fragments storage_read_file fuel
          (Option.map (λ (s : Chunkstats). chunks_stats_extrastats s fraglen) stats) hbuf
          (fragnum + 1) (left - fraglen) in
      if left == 0
      then (stats, found [])
      else elim (storage_read_file fraglen b'i' (multitape_metaindex_fragname hbuf fragnum)) [
        | found frag ↦ (rest.0, prepend frag rest.1)
        | absent ↦ (stats, absent)
        | damaged ↦ (stats, damaged)
        | error ↦ (stats, error)
      ]

  -- The index read: its hash must be the one in the metadata, and it must parse.
  unfoldable pub check_index : Tapemetadata → List ℕ → Found Tapemetaindex
  check_index mdat mbuf = elim (sha256 mbuf) [
    | none ↦ error
    | some hash ↦ if same_bytes mdat.indexhash hash then of_decoded (dec_streams mbuf) else damaged
  ]

  unfoldable pub after_read : Tapemetadata → Found (List ℕ) → Found Tapemetaindex
  after_read mdat (found mbuf) = check_index mdat mbuf
  after_read mdat absent = absent
  after_read mdat damaged = damaged
  after_read mdat error = error

  unfoldable pub multitape_metaindex_get :
      Reader → Option Chunkstats → Tapemetadata → Option Chunkstats × Found Tapemetaindex
  multitape_metaindex_get storage_read_file stats mdat = elim (hmac_name mdat.name) [
    | none ↦ (stats, error)
    | some hbuf ↦
        if alloc mdat.indexlen
        then (let read =
              read_fragments storage_read_file mdat.indexlen stats hbuf 0 mdat.indexlen in
            (read.0, after_read mdat read.1))
        else (stats, error)
  ]
