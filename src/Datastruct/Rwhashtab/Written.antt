-- ===== src/Datastruct/Rwhashtab/Written.antt =====
-- What `rwhashtab_read` and the sums over the table give after a record is written to a free slot,
-- or over a record with its key.
use tarsnap.Base.{
  ℕ, ◌+◌, ◌<◌, ◌≡◌, refl, sym, ap, ◌∙◌, ◌≢◌, inl, inr, Option, none, some, List, Eq, get_or-set_ne,
  if◌then◌else◌, Bool-cases, Option-cases, length-set,
}
use mathlib.Core.Option
use tarsnap.Datastruct.Rwhashtab.{Rwhashtab, slot, home, search_pos, read, poke}
use tarsnap.Datastruct.Rwhashtab.Slots.{
  count, total, total-set_free, total-set_held, slot-set_held, keys-set_held,
}
use tarsnap.Datastruct.Rwhashtab.Probe.{Stopped, probe_ext}
use tarsnap.Datastruct.Rwhashtab.Table.{
  IsTable, written, p, search_pos-written_other, search_pos-written_self, slot-written_self,
  IsTable-written, search_stops, search_pos-lt,
}

module _ {ℓ κ} {K : Type ℓ} {R : Type κ} ⦃e : Eq K⦄ (key : R → K) (hash : List ℕ → K → ℕ) where
  module _ (H : Rwhashtab R) (t : IsTable key hash H) (new : R) where
    pub total-written :
        (f : R → ℕ)
        → slot H.ht (p key hash H t new) ≡ none
        → total f (written key hash H new).ht ≡ f new + total f H.ht
    total-written f free =
        total-set_free f H.ht (p key hash H t new) new
          (rw t.filled (search_pos-lt key hash H t (key new))) free

    module _ (free : slot H.ht (p key hash H t new) ≡ none)
        (room : 1 + count H.ht < H.cursize) where
      read-written_same :
          (k : K) → key new ≡ k → read key hash (written key hash H new) k ≡ some new
      unfolding read
      read-written_same k same =
          ap (slot (written key hash H new).ht) (
            ap (search_pos key hash (written key hash H new)) (sym same)
            ∙ search_pos-written_self key hash H t new free)
          ∙ slot-written_self key hash H t new

      read-written_other :
          (k : K) → key new ≢ k → read key hash (written key hash H new) k ≡ read key hash H k
      unfolding read
      read-written_other k apart = elim (Option-cases (slot H.ht (search_pos key hash H k))) [
        | inr (r, held) ↦
            let pos = search_pos-written_other key hash H t new k r free held in
            let elsewhere : p key hash H t new ≢ search_pos key hash H k =
              λ same. cc (ap (slot H.ht) same) in
            ap (slot (written key hash H new).ht) pos
            ∙ get_or-set_ne H.ht _ _ (some new) none elsewhere
        | inl empty ↦
            absent (slot G.ht (search_pos key hash G k)) refl empty (
              search_stops key hash G (IsTable-written key hash H t new free) k
                (rw (total-written (λ r. 1) free) room))
            ∙ sym empty
      ]
        where
          G : Rwhashtab R
          G = written key hash H new

          absent :
              (o : Option R)
              → slot G.ht (search_pos key hash G k) ≡ o
              → slot H.ht (search_pos key hash H k) ≡ none
              → Stopped key (slot G.ht (search_pos key hash G k)) k
              → slot G.ht (search_pos key hash G k) ≡ none
          absent none at_pos empty stop = at_pos
          absent (some r) at_pos empty stop =
              let q = search_pos key hash G k in
              let same : key r ≡ k = rw at_pos at stop in
              let elsewhere : p key hash H t new ≢ q = λ eq.
                let is_new : new ≡ r = cc (slot-written_self key hash H t new, ap (slot G.ht) eq) in
                apart (ap key is_new ∙ same) in
              let old : slot H.ht q ≡ some r =
                sym (get_or-set_ne H.ht _ q (some new) none elsewhere) ∙ at_pos in
              let pos = ap (search_pos key hash H) (sym same) ∙ t.found q r old in
              absurd (cc (ap (slot H.ht) pos))

      -- The table's reads after a record is written to its free slot.
      pub read-written :
          (k : K)
          → read key hash (written key hash H new) k
            ≡ (if e.beq (key new) k then some new else read key hash H k)
      read-written k = elim (Bool-cases (e.beq (key new) k)) [
        | inl hit ↦ rw hit (read-written_same k ((e.beq_iff (key new) k).0 hit))
        | inr miss ↦ rw miss (read-written_other k (λ same. cc ((e.beq_iff (key new) k).1 same)))
      ]

  -- A write through the pointer that `read` returned, by a record with the same key.
  module _ (H : Rwhashtab R) (t : IsTable key hash H) (k : K) (old new : R)
      (held : read key hash H k ≡ some old) (same : key new ≡ key old) where
    same_keys :
        (i : ℕ) → Option.map key (slot (poke key hash H k new).ht i) ≡ Option.map key (slot H.ht i)
    unfolding poke read
    same_keys i = keys-set_held key H.ht (search_pos key hash H k) new old held same i

    search_pos-poke :
        (j : K) → search_pos key hash (poke key hash H k new) j ≡ search_pos key hash H j
    unfolding search_pos home poke
    search_pos-poke j =
        probe_ext key H.cursize (poke key hash H k new).ht H.ht H.cursize j _ same_keys

    search_pos-held : (j : K) → key new ≡ j → search_pos key hash H j ≡ search_pos key hash H k
    unfolding read
    search_pos-held j is_j =
        ap (search_pos key hash H) (sym is_j ∙ same) ∙ t.found (search_pos key hash H k) old held

    pub IsTable-poke : IsTable key hash (poke key hash H k new)
    unfolding poke
    IsTable-poke = record {
      width = t.width;
      sized = t.sized;
      filled = length-set H.ht (search_pos key hash H k) (some new) ∙ t.filled;
      found = λ q r at_q. moved q r at_q (slot H.ht q) refl (sym (same_keys q));
    }
      where
        moved :
            (q : ℕ) (r : R)
            → slot (poke key hash H k new).ht q ≡ some r
            → (o : Option R) → slot H.ht q ≡ o
            → Option.map key (slot H.ht q) ≡ Option.map key (slot (poke key hash H k new).ht q)
            → search_pos key hash (poke key hash H k new) (key r) ≡ q
        moved q r at_q none at_old keys = absurd (cc)
        moved q r at_q (some s) at_old keys =
            let eq : some (key s) ≡ some (key r) = rw (at_q, at_old) at keys in
            let same_key : key r ≡ key s = cc in
            search_pos-poke (key r) ∙ ap (search_pos key hash H) same_key ∙ t.found q s at_old

    pub total-poke : (f : R → ℕ) → total f (poke key hash H k new).ht + f old ≡ total f H.ht + f new
    unfolding poke read
    total-poke f = total-set_held f H.ht (search_pos key hash H k) new old held

    pub read-poke :
        (j : K)
        → count H.ht < H.cursize
        → read key hash (poke key hash H k new) j
          ≡ (if e.beq (key new) j then some new else read key hash H j)
    unfolding poke read
    read-poke j room = elim (Bool-cases (e.beq (key new) j)) [
      | inl hit ↦ rw hit (
          ap (slot (poke key hash H k new).ht)
            (search_pos-poke j ∙ search_pos-held j ((e.beq_iff (key new) j).0 hit))
          ∙ slot-set_held key H.ht (search_pos key hash H k) new old held)
      | inr miss ↦
          let elsewhere : search_pos key hash H k ≢ search_pos key hash H j = λ eq.
            let held_j : slot H.ht (search_pos key hash H j) ≡ some old =
              ap (slot H.ht) (sym eq) ∙ held in
            let is_j : key old ≡ j = rw held_j at (search_stops key hash H t j room) in
            cc ((e.beq_iff (key new) j).1 (same ∙ is_j)) in
          rw miss (
            ap (slot (poke key hash H k new).ht) (search_pos-poke j)
            ∙ get_or-set_ne H.ht _ _ (some new) none elsewhere)
    ]
