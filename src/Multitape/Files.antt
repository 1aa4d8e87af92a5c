-- ===== src/Multitape/Files.antt =====
-- tar/multitape/multitape_metadata.c: the files of archive metadata, and the deletion of an
-- archive's files, which multitape_metaindex.c does for the index.
pub mod Roundtrip
use tarsnap.Base.{
  ℕ, zero, suc, ◌+◌, ◌-◌, Bool, true, false, Option, none, some, List, length, ◌==◌, if◌then◌else◌,
  same_bytes,
}
use mathlib.Core.Option
use tarsnap.Chunks.Data.{Chunkstats, ChunkTable}
use tarsnap.Chunks.Write.{Services, WriteState, chunks_write_extrastats}
use tarsnap.Chunks.Delete.{DeleteServices, DeleteState, chunks_delete_extrastats}
use tarsnap.Base.Endian.{Endian}
use tarsnap.Multitape.Wire.{Decoded, decoded, corrupt, failed}
use tarsnap.Multitape.Metadata.{Tapemetadata, Rsa, multitape_metadata_enc, multitape_metadata_dec}
use tarsnap.Multitape.Metaindex.{
  Hashes, Found, found, absent, damaged, error, chunks_stats_extrastats, fragment_length,
  multitape_metaindex_fragname,
}

-- The metadata read, and the length of its file (`metadatalen`).
abbrev pub Sized : Type 0
Sized = Tapemetadata × ℕ

-- `storage_read_file_alloc`, given the file's class and its name.
abbrev pub FileReader : Type 0
FileReader = ℕ → List ℕ → Found (List ℕ)

module _ (le : Endian) (rsa : Rsa) (hs : Hashes) (alloc : ℕ → Bool) where
  open hs use {hmac_name}

  -- The name in the metadata must be that of the file.
  unfoldable pub check_name : List ℕ → ℕ → Tapemetadata → Found Sized
  check_name tapehash mdlen mdat = elim (hmac_name mdat.name) [
    | none ↦ error
    | some hbuf ↦ if same_bytes tapehash hbuf then found (mdat, mdlen) else damaged
  ]

  unfoldable pub parse_file : List ℕ → List ℕ → Found Sized
  parse_file tapehash mbuf = elim (multitape_metadata_dec le rsa alloc mbuf) [
    | decoded mdat ↦ check_name tapehash (length mbuf) mdat
    | corrupt ↦ damaged
    | failed ↦ error
  ]

  -- The statistics of `C`, unless it is NULL, count any file that could be read.
  unfoldable pub multitape_metadata_get :
      FileReader → Option Chunkstats → List ℕ → Option Chunkstats × Found Sized
  multitape_metadata_get storage_read_file_alloc stats tapehash =
      elim (storage_read_file_alloc b'm' tapehash) [
        | found mbuf ↦ (
          Option.map (λ (s : Chunkstats). chunks_stats_extrastats s (length mbuf)) stats,
          parse_file tapehash mbuf,
        )
        | absent ↦ (stats, absent)
        | damaged ↦ (stats, damaged)
        | error ↦ (stats, error)
      ]

  unfoldable pub multitape_metadata_get_byhash :
      FileReader → Option Chunkstats → List ℕ → Option Chunkstats × Found Sized
  multitape_metadata_get_byhash reader stats tapehash = multitape_metadata_get reader stats tapehash

  unfoldable pub multitape_metadata_get_byname :
      FileReader → Option Chunkstats → List ℕ → Option Chunkstats × Found Sized
  multitape_metadata_get_byname reader stats tapename = elim (hmac_name tapename) [
    | none ↦ (stats, error)
    | some hbuf ↦ multitape_metadata_get reader stats hbuf
  ]

  -- True stands for 0, and false for -1.
  module _ (tab : ChunkTable) (sv : Services) where
    unfoldable pub multitape_metadata_put :
        WriteState tab sv → Tapemetadata → WriteState tab sv × Bool
    multitape_metadata_put C mdat = elim (multitape_metadata_enc le rsa alloc mdat) [
      | none ↦ (C, false)
      | some buf ↦ elim (hmac_name mdat.name) [
        | none ↦ (C, false)
        | some hbuf ↦
            let sent = sv.storage_write_file C.store buf b'm' hbuf in
            let C1 : WriteState tab sv = record C { store = sent.0 } in
            if sent.1 then (chunks_write_extrastats tab sv C1 (length buf), true) else (C1, false)
      ]
    ]

  module _ (tab : ChunkTable) (sv : DeleteServices) where
    unfoldable pub multitape_metadata_delete :
        DeleteState tab sv → Sized → DeleteState tab sv × Bool
    multitape_metadata_delete C (mdat, metadatalen) = elim (hmac_name mdat.name) [
      | none ↦ (C, false)
      | some hbuf ↦
          let sent = sv.storage_delete_file C.store b'm' hbuf in
          let C1 : DeleteState tab sv = record C { store = sent.0 } in
          if sent.1 then (chunks_delete_extrastats tab sv C1 metadatalen, true) else (C1, false)
    ]

    unfoldable pub delete_fragments :
        ℕ → DeleteState tab sv → List ℕ → ℕ → ℕ → DeleteState tab sv × Bool
    delete_fragments zero C hbuf fragnum left = (C, true)
    delete_fragments (suc fuel) C hbuf fragnum left =
        let fraglen = fragment_length left in
        let name = multitape_metaindex_fragname le hs alloc hbuf fragnum in
        let sent = sv.storage_delete_file C.store b'i' name in
        let C1 : DeleteState tab sv = record C { store = sent.0 } in
        let rest =
          delete_fragments fuel (chunks_delete_extrastats tab sv C1 fraglen) hbuf (fragnum + 1)
            (left - fraglen) in
        if left == 0 then (C, true) else if sent.1 then rest else (C1, false)

    unfoldable pub multitape_metaindex_delete :
        DeleteState tab sv → Tapemetadata → DeleteState tab sv × Bool
    multitape_metaindex_delete C mdat = elim (hmac_name mdat.name) [
      | none ↦ (C, false)
      | some hbuf ↦ delete_fragments mdat.indexlen C hbuf 0 mdat.indexlen
    ]
