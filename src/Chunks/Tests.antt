-- ===== src/Chunks/Tests.antt =====
-- An archive of one chunk, written and deleted again, over the real hash table.
use tarsnap.Base.{◌*◌, ◌+◌, ◌<◌, ◌^◌, ◌≡◌, refl, [], ◌∷◌, arith, bytes_eq}
use tarsnap.Datastruct.Rwhashtab
use tarsnap.Datastruct.Rwhashtab.{Rwhashtab}
use tarsnap.Chunks.Data.{zlen_of, in_ctape, mark_ctape}
use tarsnap.Chunks.Padme.{padme, bitmask_of, pad_bits, floor_log, bits_of}
use tarsnap.Chunks.Padme.Exact.{padme_lem}
use tarsnap.Chunks.Write.{
  add_ref, use_chunk, after_insert, count_new, new_chunk, store_chunk, chunks_write_chunk,
  chunks_write_chunkref,
}
use tarsnap.Chunks.Write.Account as WriteAccount
use tarsnap.Chunks.Write.Counts.{Stored, chunks_write_chunk-Stored}
use tarsnap.Chunks.Delete.{drop_ref, last_ref, drop_chunk, free_chunk, chunks_delete_chunk}
use tarsnap.Chunks.Delete.Account as DeleteAccount
use tarsnap.Chunks.Counts.{copies_at, refs_at}
use tarsnap.Chunks.Lifetime.{archive_delete}
use tarsnap.Chunks.Samples.{
  table, services, delete_services, within, c0, c0-Accounted, name, bytes, c2, c0_room, c2-Archived,
  c0_roomy, d0, d0_reads, d0-Accounted, d2, d2-Deleted, d0_copies, c0_unseen, same_uses,
}

chunks_write_chunk-Stored_example :
    Stored table services c0.ht name (chunks_write_chunk table services c0 name bytes)
chunks_write_chunk-Stored_example =
    chunks_write_chunk-Stored table services c0 name bytes c0-Accounted c0_room (omega arith) within

chunks_write_chunk-Accounted_example :
    WriteAccount.Accounted table services (chunks_write_chunk table services c0 name bytes).0
chunks_write_chunk-Accounted_example =
    WriteAccount.chunks_write_chunk-Accounted table services c0 name bytes c0-Accounted c0_room
      (omega arith) within

padme_lem_example :
    (1000 + padme (λ n. 0) 1000 2000 ≡ 1024) × (padme (λ n. 0) 1000 2000 * 2 ^ 4 < 1000)
padme_lem_example =
    padme_lem (λ n. 0) 1000 2000 9 3 (omega arith) (omega arith) (omega arith) (omega arith)
      (omega arith) (omega arith) (omega arith)

-- At the end of the buffer, and where nothing is added.
padme_cut : padme (λ n. 0) 1000 1010 ≡ 10
unfolding padme bitmask_of pad_bits floor_log bits_of
padme_cut = refl

padme_short : padme (λ n. 0) 8 1010 ≡ 0
unfolding padme
padme_short = refl

removes : d2.store ≡ name ∷ []
unfolding chunks_write_chunk chunks_write_chunkref use_chunk store_chunk after_insert count_new
    new_chunk padme bitmask_of Rwhashtab.read Rwhashtab.insert Rwhashtab.insert_free
    Rwhashtab.search_pos Rwhashtab.home Rwhashtab.probe Rwhashtab.poke add_ref in_ctape mark_ctape
    chunks_delete_chunk drop_chunk free_chunk drop_ref last_ref zlen_of
removes = refl

chunks_delete_chunk-Accounted_example :
    DeleteAccount.Accounted table delete_services
      (chunks_delete_chunk table delete_services d0 name).0
chunks_delete_chunk-Accounted_example =
    DeleteAccount.chunks_delete_chunk-Accounted table delete_services d0 name d0-Accounted d0_copies

archive_delete_example :
    (copies_at (table.read d2.ht name) ≡ copies_at (table.read c0.ht name))
    × (refs_at (table.read d2.ht name) ≡ refs_at (table.read c0.ht name))
archive_delete_example =
    archive_delete table services delete_services c0 c2 d0 d2 (name ∷ name ∷ []) (name ∷ name ∷ [])
      c0-Accounted (omega arith) within c0_roomy c0_unseen c2-Archived d0-Accounted d0_reads
      same_uses d2-Deleted name
