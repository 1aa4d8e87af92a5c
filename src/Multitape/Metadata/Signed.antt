-- ===== src/Multitape/Metadata/Signed.antt =====
-- What `multitape_metadata_dec` accepts is signed.
use tarsnap.Base.{
  append-nil, append_assoc, ℕ, zero, suc, ◌+◌, ◌-◌, ◌*◌, ◌≡◌, refl, sym, ap, ◌∙◌, Bool, some, List,
  [], ◌∷◌, ◌++◌, arith, length, take, ◌==◌, if◌then◌else◌, length-append, take-append, Option-cases,
  Bool-cases, inl, inr,
}
use tarsnap.Base.Endian.{Endian}
use tarsnap.Multitape.Wire.{
  Decoded, decoded, corrupt, failed, and_then, allocate, get_bytes, split_nul, get_string,
  get_bytes-decoded,
}
use tarsnap.Multitape.Metadata.{
  Tapemetadata, Verified, good, bad, error, Rsa, dec_argv, dec_signature, check_argc, dec_index,
  multitape_metadata_dec,
}

-- The cursor `p` stands in the buffer.
record Within (buf p : List ℕ) : Type 0 where
  before : List ℕ
  split : buf ≡ before ++ p

Within-trans : (buf p q : List ℕ) → Within buf p → Within p q → Within buf q
Within-trans buf p q a b = record {
  before = a.before ++ b.before;
  split =
      a.split ∙ ap (λ (t : List ℕ). a.before ++ t) b.split ∙ sym (append_assoc a.before b.before q);
}

and_then-decoded :
    {A B : Type 0} (x : Decoded A) (f : A → Decoded B) (b : B)
    → and_then x f ≡ decoded b
    → (a : A) × (x ≡ decoded a) × (f a ≡ decoded b)
and_then-decoded (decoded a) f b h = (a, refl, h)
and_then-decoded corrupt f b h = absurd (cc)
and_then-decoded failed f b h = absurd (cc)

get_bytes-Within : (n : ℕ) (p xs q : List ℕ) → get_bytes n p ≡ decoded (xs, q) → Within p q
get_bytes-Within n p xs q h = record { before = xs; split = (get_bytes-decoded n p xs q h).0 }

split_nul-Within : (p s q : List ℕ) → split_nul p ≡ some (s, q) → Within p q
unfolding split_nul
split_nul-Within [] s q h = absurd (cc)
split_nul-Within (b ∷ p) s q h = elim (Bool-cases (b == 0)) [
  | inl nul ↦
      let e : some ([], p) ≡ some (s, q) = rw nul at h in
      let e' : ([], p) ≡ (s, q) = cc in
      record { before = b ∷ []; split = ap (◌∷◌ b) (ap (λ (r : List ℕ × List ℕ). r.1) e') }
  | inr more ↦ elim (Option-cases (split_nul p)) [
    | inl no_nul ↦ absurd (cc (rw (more, no_nul) at h))
    | inr (r, here) ↦
        let e : some (b ∷ r.0, r.1) ≡ some (s, q) = rw (more, here) at h in
        let e' : (b ∷ r.0, r.1) ≡ (s, q) = cc in
        let rest : r.1 ≡ q = ap (λ (r : List ℕ × List ℕ). r.1) e' in
        let w = split_nul-Within p r.0 q (here ∙ ap (λ (t : List ℕ). some (r.0, t)) rest) in
        record { before = b ∷ w.before; split = ap (◌∷◌ b) w.split }
  ]
]

good_only :
    (v : Verified) (rest : List ℕ)
    → (elim v as (λ x. Decoded (Unit {0})) [
      | error ↦ failed
      | bad ↦ corrupt
      | good ↦ if length rest == 0 then decoded tt else corrupt
    ])
      ≡ decoded tt
    → (v ≡ good) × (rest ≡ [])
good_only good [] h = (refl, refl)
good_only good (x ∷ rest) h = absurd (ground arith)
good_only bad rest h = absurd (cc)
good_only error rest h = absurd (cc)

module _ (le : Endian) (rsa : Rsa) (alloc : ℕ → Bool) where
  get_string-Within : (p s q : List ℕ) → get_string alloc p ≡ decoded (s, q) → Within p q
  unfolding get_string
  get_string-Within p s q h = elim (Option-cases (split_nul p)) [
    | inl no_nul ↦ absurd (cc (rw (no_nul, get_string) at h))
    | inr (r, here) ↦
        let made = rw (here, get_string) at h in
        let (u, room, e) =
          and_then-decoded (allocate alloc (length r.0 + 1)) (λ _. decoded (r.0, r.1)) (s, q)
            made in
        let e' : (r.0, r.1) ≡ (s, q) = cc in
        let rest : r.1 ≡ q = ap (λ (r : List ℕ × List ℕ). r.1) e' in
        split_nul-Within p r.0 q (here ∙ ap (λ (t : List ℕ). some (r.0, t)) rest)
  ]

  dec_argv-Within :
      (n : ℕ) (p : List ℕ) (argv : List (List ℕ)) (q : List ℕ)
      → dec_argv le rsa alloc n p ≡ decoded (argv, q)
      → Within p q
  unfolding dec_argv
  dec_argv-Within zero p argv q h =
      let e : ([], p) ≡ (argv, q) = cc in
      record { before = []; split = ap (λ (r : List (List ℕ) × List ℕ). r.1) e }
  dec_argv-Within (suc n) p argv q h =
      let (r, first, then_rest) = and_then-decoded (get_string alloc p) _ (argv, q) h in
      let (t, rest, made) = and_then-decoded (dec_argv le rsa alloc n r.1) _ (argv, q) then_rest in
      let e : (r.0 ∷ t.0, t.1) ≡ (argv, q) = cc in
      let last : t.1 ≡ q = ap (λ (r : List (List ℕ) × List ℕ). r.1) e in
      Within-trans p r.1 q (get_string-Within p r.0 r.1 first)
        (dec_argv-Within n r.1 t.0 q (rest ∙ ap (λ (u : List ℕ). decoded (t.0, u)) last))

  dec_signature-good :
      (buf p : List ℕ)
      → Within buf p
      → dec_signature le rsa alloc buf p ≡ decoded tt
      → (body sig : List ℕ) × (buf ≡ body ++ sig)
        × (length sig ≡ 256)
        × (rsa.crypto_rsa_verify body sig ≡ good)
  unfolding dec_signature
  dec_signature-good buf p w h =
      let (r, cut, checked) = and_then-decoded (get_bytes 256 p) _ tt h in
      let (whole, len) = get_bytes-decoded 256 p r.0 r.1 cut in
      let size : length buf - length p ≡ length w.before =
        omega (arith, ap (λ (t : List ℕ). length t) w.split, length-append w.before p) in
      let body : take (length buf - length p) buf ≡ w.before =
        ap (λ (n : ℕ). take n buf) size
        ∙ ap (take (length w.before)) w.split
        ∙ take-append w.before p in
      let (accepted, ended) = good_only (rsa.crypto_rsa_verify _ r.0) r.1 checked in
      let sig : p ≡ r.0 = whole ∙ ap (λ (t : List ℕ). r.0 ++ t) ended ∙ append-nil r.0 in
      (
        w.before,
        r.0,
        w.split ∙ ap (λ (t : List ℕ). w.before ++ t) sig,
        len,
        ap (λ (t : List ℕ). rsa.crypto_rsa_verify t r.0) (sym body) ∙ accepted,
      )

  -- What `multitape_metadata_dec` accepts ends in 256 bytes that `crypto_rsa_verify` accepts as a
  -- signature of all the bytes before them.
  pub dec-signed :
      (buf : List ℕ) (mdat : Tapemetadata)
      → multitape_metadata_dec le rsa alloc buf ≡ decoded mdat
      → (body sig : List ℕ) × (buf ≡ body ++ sig)
        × (length sig ≡ 256)
        × (rsa.crypto_rsa_verify body sig ≡ good)
  unfolding multitape_metadata_dec dec_index
  dec-signed buf mdat h =
      let (name, got_name, h1) = and_then-decoded (get_string alloc buf) _ mdat h in
      let (time, got_time, h2) = and_then-decoded (get_bytes 8 name.1) _ mdat h1 in
      let (count, got_count, h3) = and_then-decoded (get_bytes 4 time.1) _ mdat h2 in
      let argc : ℕ = le.le32dec count.0 in
      let (u, sane, h4) = and_then-decoded (check_argc le rsa alloc argc count.1) _ mdat h3 in
      let (v, room, h5) = and_then-decoded (allocate alloc (argc * 8)) _ mdat h4 in
      let (argv, got_argv, h6) = and_then-decoded (dec_argv le rsa alloc argc count.1) _ mdat h5 in
      let (hash, got_hash, h7) = and_then-decoded (get_bytes 32 argv.1) _ mdat h6 in
      let (len, got_len, h8) = and_then-decoded (get_bytes 8 hash.1) _ mdat h7 in
      let (w, signed, h9) = and_then-decoded (dec_signature le rsa alloc buf len.1) _ mdat h8 in
      let to_name = get_string-Within buf name.0 name.1 got_name in
      let to_time = get_bytes-Within 8 name.1 time.0 time.1 got_time in
      let to_count = get_bytes-Within 4 time.1 count.0 count.1 got_count in
      let to_argv = dec_argv-Within argc count.1 argv.0 argv.1 got_argv in
      let to_hash = get_bytes-Within 32 argv.1 hash.0 hash.1 got_hash in
      let to_len = get_bytes-Within 8 hash.1 len.0 len.1 got_len in
      dec_signature-good buf len.1
        (Within-trans buf name.1 len.1 to_name (
          Within-trans name.1 time.1 len.1 to_time (
            Within-trans time.1 count.1 len.1 to_count (
              Within-trans count.1 argv.1 len.1 to_argv
                (Within-trans argv.1 hash.1 len.1 to_hash to_len)))))
        signed
