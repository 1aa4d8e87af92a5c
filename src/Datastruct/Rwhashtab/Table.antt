-- ===== src/Datastruct/Rwhashtab/Table.antt =====
-- The array that `rwhashtab_search` walks: every record stands where a search for its key ends.
use tarsnap.Base.{
  ℕ, ◌+◌, ◌-◌, ◌%◌, ◌^◌, ◌<◌, ◌≡◌, refl, sym, ap, ◌∙◌, inl, inr, Option, none, some, List, arith,
  Eq, length, set, length-set, get_or-set_self, get_or-set_ne, Option-cases,
}
use tarsnap.Base.Bits.{bit_and_mask}
use native.Mathlib.Nat.{mod-lt, mod-eq_of_lt, add-mod_right, one-le-pow}
use native.Mathlib.Decide.{dec_le, ℕ_discrete}
use tarsnap.Datastruct.Rwhashtab.{Rwhashtab, slot, home, search_pos, read}
use tarsnap.Datastruct.Rwhashtab.Slots.{count, free_slot, Distinct, find, find-slot, find_unique}
use tarsnap.Datastruct.Rwhashtab.Probe.{
  Stopped, probe-set_other, probe-set_self, probe_stops_sized, probe-lt_sized,
}

-- How far ahead of `pos` the slot `i` lies, round the end of the table.
pub distance : (n i pos : ℕ) → i < n → pos < n → (d : ℕ) × (d < n) × ((pos + d) % n ≡ i)
distance n i pos hi hp = elim (dec_le pos i) [
  | yes le ↦ (i - pos, omega arith, ap (λ (t : ℕ). t % n) (omega arith) ∙ mod-eq_of_lt hi)
  | no gt ↦ (
    i + n - pos,
    omega arith,
    ap (λ (t : ℕ). t % n) (omega arith) ∙ add-mod_right i n ∙ mod-eq_of_lt hi,
  )
]

module _ {ℓ κ} {K : Type ℓ} {R : Type κ} ⦃e : Eq K⦄ (key : R → K) (hash : List ℕ → K → ℕ) where
  pub record IsTable (H : Rwhashtab R) : Type (ℓ ⊔ κ) where
    pub width : ℕ
    pub sized : H.cursize ≡ 2 ^ width
    pub filled : length H.ht ≡ H.cursize
    pub found : (p : ℕ) (r : R) → slot H.ht p ≡ some r → search_pos key hash H (key r) ≡ p

  -- The count of entries plays no part in a search.
  pub IsTable-numentries :
      (H : Rwhashtab R) (n : ℕ) → IsTable H → IsTable (record H { numentries = n })
  unfolding search_pos home
  IsTable-numentries H n t = record {
    width = t.width;
    sized = t.sized;
    filled = t.filled;
    found = t.found;
  }

  pub read-numentries :
      (H : Rwhashtab R) (n : ℕ) (k : K)
      → read key hash (record H { numentries = n }) k ≡ read key hash H k
  unfolding read search_pos home
  read-numentries H n k = refl

  module _ (H : Rwhashtab R) (t : IsTable H) where
    home-lt : (k : K) → home key hash H k < H.cursize
    unfolding home
    home-lt k =
        let small : hash H.randbuf k % 2 ^ t.width < 2 ^ t.width =
          mod-lt (hash H.randbuf k) (one-le-pow t.width 2 (omega arith)) in
        rw (t.sized, bit_and_mask t.width (hash H.randbuf k)) small

    pub search_pos-lt : (k : K) → search_pos key hash H k < H.cursize
    unfolding search_pos
    search_pos-lt k =
        probe-lt_sized key H.cursize H.cursize t.width H.ht k (home key hash H k) t.sized
          (home-lt k)

    -- In a table that is not full, `rwhashtab_search` ends by one of its own tests, not for want of
    -- rounds: where it ends the slot is empty or holds the key.
    pub search_stops :
        (k : K) → count H.ht < H.cursize → Stopped key (slot H.ht (search_pos key hash H k)) k
    unfolding search_pos
    search_stops k room =
        let (i, lt, free) = free_slot H.ht (rw t.filled room) in
        let (d, near, at_i) =
          distance H.cursize i (home key hash H k) (rw t.filled at lt) (home-lt k) in
        probe_stops_sized key H.cursize d t.width H.ht k (home key hash H k) t.sized near
          (ap (slot H.ht) at_i ∙ free) (home-lt k)

    pub IsTable-Distinct : Distinct key H.ht
    IsTable-Distinct p q r s hp hq same =
        sym (t.found p r hp) ∙ ap (search_pos key hash H) same ∙ t.found q s hq

    -- In a table that is not full, `rwhashtab_read` returns what a scan of the whole array for the key
    -- returns.
    pub read-find : (k : K) → count H.ht < H.cursize → read key hash H k ≡ find key k H.ht
    unfolding read
    read-find k room = go (slot H.ht (search_pos key hash H k)) refl (search_stops k room)
      where
        go :
            (o : Option R)
            → slot H.ht (search_pos key hash H k) ≡ o
            → Stopped key (slot H.ht (search_pos key hash H k)) k
            → slot H.ht (search_pos key hash H k) ≡ find key k H.ht
        go none at_pos stop = elim (Option-cases (find key k H.ht)) [
          | inl missing ↦ at_pos ∙ sym missing
          | inr (r, scanned) ↦
              let (i, at_i, same) = find-slot key k H.ht r scanned in
              let pos : search_pos key hash H k ≡ i =
                ap (search_pos key hash H) (sym same) ∙ t.found i r at_i in
              absurd (cc (ap (slot H.ht) pos))
        ]
        go (some r) at_pos stop =
            let same : key r ≡ k = rw at_pos at stop in
            at_pos
            ∙ sym (find_unique key k H.ht (search_pos key hash H k) r IsTable-Distinct at_pos same)

  -- A record written where the search for its key found an empty slot.
  abbrev pub written : Rwhashtab R → R → Rwhashtab R
  written H new = record H { ht = set H.ht (search_pos key hash H (key new)) (some new) }

  module _ (H : Rwhashtab R) (t : IsTable H) (new : R) where
    abbrev pub p : ℕ
    p = search_pos key hash H (key new)

    pub search_pos-written_other :
        (k : K) (rec : R)
        → slot H.ht p ≡ none
        → slot H.ht (search_pos key hash H k) ≡ some rec
        → search_pos key hash (written H new) k ≡ search_pos key hash H k
    unfolding search_pos home
    search_pos-written_other k rec free held =
        probe-set_other key H.cursize H.ht H.cursize k _ p rec new free held

    pub search_pos-written_self :
        slot H.ht p ≡ none → search_pos key hash (written H new) (key new) ≡ p
    unfolding search_pos home
    search_pos-written_self free =
        probe-set_self key H.cursize H.ht H.cursize (key new) _ new free
          ((e.beq_iff (key new) (key new)).1 refl)

    pub slot-written_self : slot (written H new).ht p ≡ some new
    slot-written_self =
        get_or-set_self H.ht p (some new) none (rw t.filled (search_pos-lt H t (key new)))

    pub IsTable-written : slot H.ht p ≡ none → IsTable (written H new)
    IsTable-written free = record {
      width = t.width;
      sized = t.sized;
      filled = length-set H.ht p (some new) ∙ t.filled;
      found = λ q r at_q. elim (ℕ_discrete p q) [
        | yes same ↦
            let is_new : new ≡ r = cc (slot-written_self, ap (slot (written H new).ht) same) in
            ap (search_pos key hash (written H new)) (ap key (sym is_new))
            ∙ search_pos-written_self free
            ∙ same
        | no apart ↦
            let old : slot H.ht q ≡ some r =
              sym (get_or-set_ne H.ht p q (some new) none apart) ∙ at_q in
            let pos = t.found q r old in
            search_pos-written_other (key r) r free (ap (slot H.ht) pos ∙ old) ∙ pos
      ];
    }
