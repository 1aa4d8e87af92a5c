-- ===== src/Multitape/Metaindex/Roundtrip.antt =====
-- Storing an archive's index and reading it again.
use tarsnap.Base.{
  ℕ, zero, suc, ◌+◌, ◌-◌, ◌*◌, ◌%◌, ◌^◌, ◌<◌, ◌≤◌, ◌≡◌, ◌≢◌, refl, sym, ap, ◌∙◌, Bool, true, false,
  Option, none, some, List, [], ◌∷◌, arith, leb, ◌==◌, if◌then◌else◌, length, take, drop,
  same_bytes_iff, length-append, take-append-drop, length-take, Bool-cases, inl, inr,
}
use mathlib.Core.Option
use native.Mathlib.Nat.{mod-eq_of_lt}
use tarsnap.Chunks.Data.{Chunkstats, ChunkTable}
use tarsnap.Chunks.Write.{Services, WriteState, chunks_write_extrastats}
use tarsnap.Base.Endian.{Endian}
use tarsnap.Multitape.Wire.{decoded}
use tarsnap.Multitape.Metadata.{Tapemetadata}
use tarsnap.Multitape.Metaindex.{
  Tapemetaindex, maxifrag, Hashes, chunks_stats_extrastats, found, Reader, fragment_length, prepend,
  of_decoded, multitape_metaindex_fragname, enc_streams, dec_streams, write_fragments,
  multitape_metaindex_put, read_fragments, check_index, after_read, multitape_metaindex_get,
}
use tarsnap.Multitape.Metaindex.Streams.{dec_streams-enc_streams, length-enc_streams}

fragment_length-pos : (n : ℕ) → 0 < n → 0 < fragment_length n
unfolding fragment_length
fragment_length-pos n h = ground arith

module _ (le : Endian) (hs : Hashes) (alloc : ℕ → Bool) (plenty : (n : ℕ) → alloc n ≡ true) where
  -- A storage layer whose files can be read: a file that was written has its bytes, until another is
  -- written under its name.
  module _ (tab : ChunkTable) (sv : Services) (reader : sv.Storage → Reader)
      (reads : (s : sv.Storage) (b name : List ℕ)
        → (sv.storage_write_file s b b'i' name).1 ≡ true
        → reader (sv.storage_write_file s b b'i' name).0 (length b) b'i' name ≡ found b)
      (keeps : (s : sv.Storage) (b name other : List ℕ) (l : ℕ)
        → name ≢ other
        → reader (sv.storage_write_file s b b'i' name).0 l b'i' other ≡ reader s l b'i' other)
      (hbuf : List ℕ)
      (apart : (a b : ℕ)
        → hs.sha256_2 hbuf (le.le32enc a) ≡ hs.sha256_2 hbuf (le.le32enc b)
        → le.le32enc a ≡ le.le32enc b) where
    abbrev fragname : ℕ → List ℕ
    fragname = multitape_metaindex_fragname le hs alloc hbuf

    fragname-ne : (a b : ℕ) → a < b → b < 2 ^ 32 → fragname b ≢ fragname a
    unfolding multitape_metaindex_fragname
    fragname-ne a b lt small same =
        let b' = mod-eq_of_lt small in
        let a' : a % 2 ^ 32 ≡ a = mod-eq_of_lt (omega arith) in
        let named : (n : ℕ) → n % 2 ^ 32 ≡ n → fragname n ≡ hs.sha256_2 hbuf (le.le32enc n) =
          λ n e. ap (λ (t : ℕ). hs.sha256_2 hbuf (le.le32enc t)) e in
        let bytes : le.le32enc b ≡ le.le32enc a =
          apart b a (sym (named b b') ∙ same ∙ named a a') in
        let eq : b ≡ a =
          sym (le.le32dec-le32enc b small)
          ∙ ap le.le32dec bytes
          ∙ le.le32dec-le32enc a (omega arith) in
        absurd (omega arith)

    abbrev frag : List ℕ → List ℕ
    frag buf = take (fragment_length (length buf)) buf

    abbrev left : List ℕ → List ℕ
    left buf = drop (fragment_length (length buf)) buf

    abbrev sent : WriteState tab sv → ℕ → List ℕ → sv.Storage × Bool
    sent C n buf = sv.storage_write_file C.store (frag buf) b'i' (fragname n)

    abbrev next : WriteState tab sv → ℕ → List ℕ → WriteState tab sv
    next C n buf =
        chunks_write_extrastats tab sv (record C { store = (sent C n buf).0 }) (length (frag buf))

    next-store :
        (C : WriteState tab sv) (n : ℕ) (buf : List ℕ) → (next C n buf).store ≡ (sent C n buf).0
    unfolding chunks_write_extrastats
    next-store C n buf = refl

    write_step :
        (fuel : ℕ) (C E : WriteState tab sv) (n : ℕ) (buf : List ℕ)
        → 0 < length buf
        → write_fragments le hs alloc tab sv (suc fuel) C hbuf n buf ≡ (E, true)
        → ((sent C n buf).1 ≡ true)
          × (write_fragments le hs alloc tab sv fuel (next C n buf) hbuf (n + 1) (left buf)
              ≡ (E, true))
    unfolding write_fragments
    write_step fuel C E n buf some_left done =
        let more : (length buf == 0) ≡ false = ground arith in
        elim (Bool-cases (sent C n buf).1) [
          | inl ok ↦ (ok, rw (more, ok) at done)
          | inr refused ↦
              absurd (cc (ap (λ (r : WriteState tab sv × Bool). r.1) (rw (more, refused) at done)))
        ]

    write_end :
        (fuel : ℕ) (C E : WriteState tab sv) (n : ℕ) (buf : List ℕ)
        → length buf ≡ 0
        → write_fragments le hs alloc tab sv fuel C hbuf n buf ≡ (E, true)
        → C ≡ E
    unfolding write_fragments
    write_end zero C E n buf empty done = ap (λ (r : WriteState tab sv × Bool). r.0) done
    write_end (suc fuel) C E n buf empty done =
        let stop : (length buf == 0) ≡ true = ground arith in
        ap (λ (r : WriteState tab sv × Bool). r.0) (rw stop at done)

    frag-length : (buf : List ℕ) → length (frag buf) ≡ fragment_length (length buf)
    unfolding fragment_length
    frag-length buf = length-take (fragment_length (length buf)) buf (ground arith)

    left-length : (buf : List ℕ) → length (left buf) + fragment_length (length buf) ≡ length buf
    left-length buf = omega (
      arith,
      ap (λ (t : List ℕ). length t) (take-append-drop (fragment_length (length buf)) buf),
      length-append (frag buf) (left buf),
      frag-length buf,
    )

    -- A round leaves the bound on what follows it.
    next_bound :
        (n : ℕ) (buf : List ℕ)
        → n * maxifrag + length buf < 2 ^ 34
        → 0 < length (left buf)
        → (n + 1) * maxifrag + length (left buf) < 2 ^ 34
    unfolding fragment_length
    next_bound n buf bound some_left = ground (arith, left-length buf)

    -- The fragments from `n` on leave the earlier ones alone.
    kept :
        (fuel : ℕ) (C E : WriteState tab sv) (n k : ℕ) (buf : List ℕ) (l : ℕ)
        → k < n
        → (0 < length buf → n * maxifrag + length buf < 2 ^ 34)
        → write_fragments le hs alloc tab sv fuel C hbuf n buf ≡ (E, true)
        → reader E.store l b'i' (fragname k) ≡ reader C.store l b'i' (fragname k)
    unfolding write_fragments
    kept zero C E n k buf l lt bound done =
        ap (λ (r : WriteState tab sv × Bool). reader r.0.store l b'i' (fragname k)) (sym done)
    kept (suc fuel) C E n k buf l lt bound done = elim (Bool-cases (length buf == 0)) [
      | inl empty ↦
          let same : C ≡ E = write_end (suc fuel) C E n buf (ground arith) done in
          ap (λ (D : WriteState tab sv). reader D.store l b'i' (fragname k)) (sym same)
      | inr more ↦
          let some_left : 0 < length buf = ground arith in
          let (ok, rest) = write_step fuel C E n buf some_left done in
          let later =
            kept fuel (next C n buf) E (n + 1) k (left buf) l (omega arith)
              (λ pos. next_bound n buf (bound some_left) pos) rest in
          let apart_names = fragname-ne k n lt (omega (arith, bound some_left)) in
          later
          ∙ ap (λ (t : sv.Storage). reader t l b'i' (fragname k)) (next-store C n buf)
          ∙ keeps C.store (frag buf) (fragname n) (fragname k) l apart_names
    ]

    -- What was written is read back.
    read_written :
        (fuel : ℕ) (C E : WriteState tab sv) (n : ℕ) (buf : List ℕ) (stats : Option Chunkstats)
        → length buf ≤ fuel
        → (0 < length buf → n * maxifrag + length buf < 2 ^ 34)
        → write_fragments le hs alloc tab sv fuel C hbuf n buf ≡ (E, true)
        → (read_fragments le hs alloc (reader E.store) fuel stats hbuf n (length buf)).1 ≡ found buf
    unfolding read_fragments prepend
    read_written zero C E n [] stats enough bound done = refl
    read_written zero C E n (b ∷ buf) stats enough bound done = absurd (omega arith)
    read_written (suc fuel) C E n [] stats enough bound done = refl
    read_written (suc fuel) C E n (b ∷ bs) stats enough bound done =
        let buf : List ℕ = b ∷ bs in
        let l : ℕ = fragment_length (length buf) in
        let some_left : 0 < length buf = omega arith in
        let more : (length buf == 0) ≡ false = ground arith in
        let (ok, rest) = write_step fuel C E n buf some_left done in
        let bound' = λ (pos : 0 < length (left buf)). next_bound n buf (bound some_left) pos in
        let head : reader E.store l b'i' (fragname n) ≡ found (frag buf) =
          kept fuel (next C n buf) E (n + 1) n (left buf) l (omega arith) bound' rest
          ∙ ap (λ (t : sv.Storage). reader t l b'i' (fragname n)) (next-store C n buf)
          ∙ ap (λ (t : ℕ). reader (sent C n buf).0 t b'i' (fragname n)) (sym (frag-length buf))
          ∙ reads C.store (frag buf) (fragname n) ok in
        let stats' = Option.map (λ (t : Chunkstats). chunks_stats_extrastats t l) stats in
        let shorter : length buf - l ≡ length (left buf) = omega (arith, left-length buf) in
        let fewer : length (left buf) ≤ fuel =
          omega (arith, left-length buf, fragment_length-pos (length buf) some_left) in
        let tail : (read_fragments le hs alloc (reader E.store) fuel stats' hbuf (n + 1)
              (length buf - l)).1
            ≡ found (left buf) =
          ap (λ (t : ℕ). (read_fragments le hs alloc (reader E.store) fuel stats' hbuf (n + 1) t).1)
            shorter
          ∙ read_written fuel (next C n buf) E (n + 1) (left buf) stats' fewer bound' rest in
        rw more (rw head (rw tail (ap found (take-append-drop l buf))))

    abbrev total : Tapemetaindex → ℕ
    total mind = 12 + length mind.hindex + length mind.cindex + length mind.tindex

    -- What a success of `multitape_metaindex_put` tells.
    record HoldsIndex (C E : WriteState tab sv) (mind : Tapemetaindex) (mdat mdat' : Tapemetadata)
        : Type 0 where
      h : length mind.hindex < 2 ^ 32
      c : length mind.cindex < 2 ^ 32
      t : length mind.tindex < 2 ^ 32
      hash : List ℕ
      hashed : hs.sha256 (enc_streams le hs alloc mind) ≡ some hash
      stored :
          write_fragments le hs alloc tab sv (total mind) C hbuf 0 (enc_streams le hs alloc mind)
          ≡ (E, true)
      updated : mdat' ≡ record mdat { indexhash = hash; indexlen = total mind }

    stored_hash :
        (r : WriteState tab sv × Bool) (o : Option (List ℕ)) (f : List ℕ → Tapemetadata)
        (E : WriteState tab sv) (m : Tapemetadata)
        → ◌≡◌ {A = WriteState tab sv × Option Tapemetadata}
            (if r.1 then (r.0, Option.map f o) else (r.0, none))
            (E, some m)
        → (r ≡ (E, true)) × (hash : List ℕ) × (o ≡ some hash) × (m ≡ f hash)
    stored_hash (D, true) (some hash) f E m e =
        let state : D ≡ E = ap (λ (r : WriteState tab sv × Option Tapemetadata). r.0) e in
        let meta : some (f hash) ≡ some m =
          ap (λ (r : WriteState tab sv × Option Tapemetadata). r.1) e in
        (ap (λ (D : WriteState tab sv). (D, true)) state, hash, refl, cc)
    stored_hash (D, true) none f E m e =
        absurd (cc (ap (λ (r : WriteState tab sv × Option Tapemetadata). r.1) e))
    stored_hash (D, false) o f E m e =
        absurd (cc (ap (λ (r : WriteState tab sv × Option Tapemetadata). r.1) e))

    put-HoldsIndex :
        (C E : WriteState tab sv) (mind : Tapemetaindex) (mdat mdat' : Tapemetadata)
        → hs.hmac_name mdat.name ≡ some hbuf
        → multitape_metaindex_put le hs alloc tab sv C mind mdat ≡ (E, some mdat')
        → HoldsIndex C E mind mdat mdat'
    unfolding multitape_metaindex_put
    put-HoldsIndex C E mind mdat mdat' named done =
        elim (Bool-cases (leb (2 ^ 32) (length mind.hindex))) [
          | inl h ↦
              absurd (cc (ap (λ (r : WriteState tab sv × Option Tapemetadata). r.1) (rw h at done)))
          | inr h ↦ elim (Bool-cases (leb (2 ^ 32) (length mind.cindex))) [
            | inl c ↦
                absurd (
                  cc
                    (ap (λ (r : WriteState tab sv × Option Tapemetadata). r.1) (rw (h, c) at done)))
            | inr c ↦ elim (Bool-cases (leb (2 ^ 32) (length mind.tindex))) [
              | inl t ↦ absurd (
                  cc (
                    ap (λ (r : WriteState tab sv × Option Tapemetadata). r.1)
                      (rw (h, c, t) at done)))
              | inr t ↦
                  let fits : leb (2 ^ 64) (total mind) ≡ false = ground arith in
                  let (stored, hash, hashed, updated) =
                    stored_hash
                      (write_fragments le hs alloc tab sv (total mind) C hbuf 0
                        (enc_streams le hs alloc mind))
                      (hs.sha256 (enc_streams le hs alloc mind))
                      (λ hash. record mdat { indexhash = hash; indexlen = total mind }) E mdat'
                      (rw (h, c, t, fits, plenty (total mind), named) at done) in
                  record {
                    h = ground arith;
                    c = ground arith;
                    t = ground arith;
                    hash = hash;
                    hashed = hashed;
                    stored = stored;
                    updated = updated;
                  }
            ]
          ]
        ]

    check_index_put :
        (mdat : Tapemetadata) (mind : Tapemetaindex) (buf : List ℕ)
        → hs.sha256 buf ≡ some mdat.indexhash
        → dec_streams le hs alloc buf ≡ decoded mind
        → check_index le hs alloc mdat buf ≡ found mind
    unfolding check_index of_decoded
    check_index_put mdat mind buf hashed parsed =
        rw (hashed, check_index)
          (rw ((same_bytes_iff mdat.indexhash mdat.indexhash).1 refl) (rw parsed refl))

    -- An index that `multitape_metaindex_put` stores is what `multitape_metaindex_get` then reads,
    -- with the metadata that it leaves, if memory does not run out; the storage layer returns what was
    -- written last under a name; and the hash of the archive's name, `hbuf`, gives the fragments names
    -- that are apart.
    pub put-get :
        (C E : WriteState tab sv) (mind : Tapemetaindex) (mdat mdat' : Tapemetadata)
        (stats : Option Chunkstats)
        → hs.hmac_name mdat.name ≡ some hbuf
        → multitape_metaindex_put le hs alloc tab sv C mind mdat ≡ (E, some mdat')
        → (multitape_metaindex_get le hs alloc (reader E.store) stats mdat').1 ≡ found mind
    unfolding multitape_metaindex_get after_read
    put-get C E mind mdat mdat' stats named done =
        let p = put-HoldsIndex C E mind mdat mdat' named done in
        let buf = enc_streams le hs alloc mind in
        let len = length-enc_streams le hs alloc plenty mind in
        let whole : (read_fragments le hs alloc (reader E.store) (total mind) stats hbuf 0
              (total mind)).1
            ≡ found buf =
          ap
            (λ (n : ℕ). (read_fragments le hs alloc (reader E.store) (total mind) stats hbuf 0 n).1)
            (sym len)
          ∙ read_written (total mind) C E 0 buf stats (omega (arith, len))
              (λ pos. omega (arith, len, p.h, p.c, p.t)) p.stored in
        let new : Tapemetadata = record mdat { indexhash = p.hash; indexlen = total mind } in
        let checked : check_index le hs alloc new buf ≡ found mind =
          check_index_put new mind buf p.hashed
            (dec_streams-enc_streams le hs alloc plenty mind p.h p.c p.t) in
        let got : (multitape_metaindex_get le hs alloc (reader E.store) stats new).1 ≡ found mind =
          rw (named, multitape_metaindex_get) (rw (plenty (total mind)) (rw whole checked)) in
        ap (λ (m : Tapemetadata). (multitape_metaindex_get le hs alloc (reader E.store) stats m).1)
          p.updated
        ∙ got
