-- ===== src/Multitape/Chunkify/Conserved.antt =====
-- What chunkify_write makes of a buffer: the chunks that it hands over and what it keeps.
use tarsnap.Base.{
  ℕ, ◌≤◌, ◌<◌, ◌≡◌, refl, sym, ap, subst, ◌∙◌, Bool, true, false, Option, none, some, List, [], ◌∷◌,
  ◌++◌, arith, ◌==◌, length, append_assoc, append-nil, All,
}
use tarsnap.Multitape.Chunkify.{
  Chunkifier, chunkify_start, after_done, chunkify_end, after_byte, chunkify_write,
}
use tarsnap.Multitape.Chunkify.Written.{
  IsValid, IsFull, Written, chunkify_start-IsValid, write_byte-Written,
}

module _ {S E : Type 0} (chunkdone : S → List ℕ → S × Option E) where
  -- The callback on the chunks in turn, until a value that is not zero.
  abbrev pub deliver : S → List (List ℕ) → S × Option E
  deliver s [] = (s, none)
  deliver s (chunk ∷ chunks) =
      let (s', rc) = chunkdone s chunk in
      elim rc as (λ x. S × Option E) [ none ↦ deliver s' chunks | some e ↦ (s', some e) ]

  deliver_on :
      (s : S) (chunk : List ℕ) (chunks : List (List ℕ)) {done : S × Option E}
      → chunkdone s chunk ≡ done
      → deliver s (chunk ∷ chunks) ≡ elim done.1 as (λ x. S × Option E) [
        | none ↦ deliver done.0 chunks
        | some e ↦ (done.0, some e)
      ]
  deliver_on s chunk chunks h =
      ap
        (λ (a : S × Option E). elim a.1 as (λ x. S × Option E) [
          | none ↦ deliver a.0 chunks
          | some e ↦ (a.0, some e)
        ])
        h

  abbrev pub concat : List (List ℕ) → List ℕ
  concat [] = []
  concat (xs ∷ xss) = xs ++ concat xss

  -- What the callback made of the chunks, which with `rest` are all bytes; without an error `rest` is
  -- in the chunkifier, which is valid.
  pub record IsCut (s : S) (c : Chunkifier) (all : List ℕ) (answer : S × Chunkifier × Option E)
      : Type 0 where
    pub chunks : List (List ℕ)
    pub rest : List ℕ
    pub delivered : deliver s chunks ≡ (answer.0, answer.2)
    pub whole : concat chunks ++ rest ≡ all
    pub lengths : All (λ chunk. (0 < length chunk) × (length chunk ≤ c.blen)) chunks
    pub carries_on :
        answer.2 ≡ none → (answer.1.buf ≡ rest) × IsValid answer.1 × (answer.1.blen ≡ c.blen)

  abbrev Cuts : List ℕ → Type 0
  Cuts buf =
      (s : S) (c : Chunkifier)
      → IsValid c
      → (answer : S × Chunkifier × Option E) × (chunkify_write chunkdone s c buf ≡ some answer)
        × IsCut s c (c.buf ++ buf) answer

  abbrev onward : List ℕ → S × Chunkifier × Option E → Option (S × Chunkifier × Option E)
  onward buf (s, c, none) = chunkify_write chunkdone s c buf
  onward buf (s, c, some e) = some (s, c, some e)

  -- The end of a chunk, and then the rest of the buffer.
  end-IsCut :
      (buf : List ℕ) (s : S) (c : Chunkifier) (done : S × Option E)
      → Cuts buf
      → IsFull c
      → chunkdone s c.buf ≡ done
      → (answer : S × Chunkifier × Option E) × (onward buf (after_done chunkdone c done)
          ≡ some answer)
        × IsCut s c (c.buf ++ buf) answer
  unfolding after_done chunkify_start
  end-IsCut buf s c (s', none) next full is =
      let (answer, written, cut) =
        next s' (chunkify_start c) (chunkify_start-IsValid c full.sized) in
      (
        answer,
        written,
        record {
          chunks = c.buf ∷ cut.chunks;
          rest = cut.rest;
          delivered = deliver_on s c.buf cut.chunks is ∙ cut.delivered;
          whole =
              append_assoc c.buf (concat cut.chunks) cut.rest ∙ ap (λ ys. c.buf ++ ys) cut.whole;
          lengths = (
            (omega (arith, full.bytes, full.some_byte), omega (arith, full.bytes, full.room)),
            cut.lengths,
          );
          carries_on = cut.carries_on;
        },
      )
  end-IsCut buf s c (s', some e) next full is = (
    (s', c, some e),
    refl,
    record {
      chunks = c.buf ∷ [];
      rest = buf;
      delivered = deliver_on s c.buf [] is;
      whole = ap (λ ys. ys ++ buf) (append-nil c.buf);
      lengths =
          ((omega (arith, full.bytes, full.some_byte), omega (arith, full.bytes, full.room)), tt);
      carries_on = λ h. absurd (cc);
    },
  )

  -- `chunkify_write` returns for every buffer, whatever the callback answers. The chunks that it hands
  -- over have from 1 to blen bytes, and they and the bytes that are left are the bytes that the
  -- chunkifier held and those of the buffer, in order; without an error the chunkifier holds what is
  -- left and is valid again. The chunkifier is valid: its sizes fit 32 bits and its hash table.
  pub chunkify_write-IsCut :
      (s : S) (c : Chunkifier) (buf : List ℕ)
      → IsValid c
      → (answer : S × Chunkifier × Option E) × (chunkify_write chunkdone s c buf ≡ some answer)
        × IsCut s c (c.buf ++ buf) answer
  unfolding chunkify_write after_byte chunkify_end
  chunkify_write-IsCut s c [] v = (
    (s, c, none),
    refl,
    record {
      chunks = [];
      rest = c.buf;
      delivered = refl;
      whole = sym (append-nil c.buf);
      lengths = tt;
      carries_on = λ h. (refl, v, refl);
    },
  )
  chunkify_write-IsCut s c (x ∷ buf) v =
      let next : Cuts buf = λ s' c' v'. chunkify_write-IsCut s' c' buf v' in
      let (a, is, written) = write_byte-Written c x v in
      let step : chunkify_write chunkdone s c (x ∷ buf) ≡ onward buf (after_byte chunkdone s a) =
        ap
          (λ (o : Option (Chunkifier × Bool)). elim o as (λ x. Option (S × Chunkifier × Option E)) [
            | none ↦ none
            | some b ↦ onward buf (after_byte chunkdone s b)
          ])
          is in
      let (answer, ends, cut) = go a written next in
      (
        answer,
        step ∙ ends,
        subst (λ all. IsCut s c all answer) (append_assoc c.buf (x ∷ []) buf) cut,
      )
    where
      resume :
          (c' : Chunkifier) (answer : S × Chunkifier × Option E)
          → c'.buf ≡ c.buf ++ (x ∷ [])
          → c'.blen ≡ c.blen
          → IsCut s c' (c'.buf ++ buf) answer
          → IsCut s c ((c.buf ++ (x ∷ [])) ++ buf) answer
      resume c' answer same blen cut = record {
        chunks = cut.chunks;
        rest = cut.rest;
        delivered = cut.delivered;
        whole = cut.whole ∙ ap (λ ys. ys ++ buf) same;
        lengths =
            subst (λ (n : ℕ). All (λ chunk. (0 < length chunk) × (length chunk ≤ n)) cut.chunks)
              blen cut.lengths;
        carries_on =
            λ h. let (left, valid, same_blen) = cut.carries_on h in (left, valid, same_blen ∙ blen);
      }

      go :
          (a : Chunkifier × Bool)
          → Written c.blen (c.buf ++ (x ∷ [])) a
          → Cuts buf
          → (answer : S × Chunkifier × Option E) × (onward buf (after_byte chunkdone s a)
              ≡ some answer)
            × IsCut s c ((c.buf ++ (x ∷ [])) ++ buf) answer
      go (c', false) (valid, same, blen) next =
          let (answer, written, cut) = next s c' valid in
          (answer, written, resume c' answer same blen cut)
      go (c', true) (full, same, blen) next =
          let started : (c'.k == 0) ≡ false = ground (arith, full.some_byte) in
          let (answer, written, cut) = end-IsCut buf s c' (chunkdone s c'.buf) next full refl in
          let ended : after_byte chunkdone s (c', true)
              ≡ after_done chunkdone c' (chunkdone s c'.buf) =
            rw started refl in
          (answer, ap (onward buf) ended ∙ written, resume c' answer same blen cut)
