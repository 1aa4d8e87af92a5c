-- ===== src/Datastruct/Rwhashtab/Probe.antt =====
-- The probe loop of `rwhashtab_search`: where it ends, and what a write to the table does to it.
use tarsnap.Base.{
  ℕ, zero, suc, ◌+◌, ◌-◌, ◌%◌, ◌^◌, ◌<◌, bit_and, ◌≡◌, refl, sym, ap, ◌∙◌, ◌≢◌, ◌⊎◌, inl, inr, true,
  false, Option, none, some, List, [], ◌∷◌, arith, Eq, set, get_or-set_ne, Bool-cases, Option-cases,
}
use tarsnap.Base.Bits.{bit_and_mask}
use mathlib.Core.Option
use native.Mathlib.Nat.{mod-add-mod, mod-eq_of_lt, add-zero}
use tarsnap.Datastruct.Rwhashtab.{slot, probe}

-- The loop ended by one of its tests: the slot is empty or holds the key.
abbrev pub Stopped {ℓ κ} : {K : Type ℓ} {R : Type κ} (key : R → K) → Option R → K → Type ℓ
Stopped key none k = Unit
Stopped key (some rec) k = key rec ≡ k

module _ {ℓ κ} {K : Type ℓ} {R : Type κ} ⦃e : Eq K⦄ (key : R → K) where
  -- The steps of the loop.
  pub probe_empty :
      (fuel : ℕ) (ht : List (Option R)) (size : ℕ) (k : K) (pos : ℕ)
      → slot ht pos ≡ none
      → probe key fuel ht size k pos ≡ pos
  unfolding probe
  probe_empty zero ht size k pos h = refl
  probe_empty (suc fuel) ht size k pos h = rw (h, probe)

  pub probe_here :
      (fuel : ℕ) (ht : List (Option R)) (size : ℕ) (k : K) (pos : ℕ) (rec : R)
      → slot ht pos ≡ some rec
      → e.beq (key rec) k ≡ true
      → probe key fuel ht size k pos ≡ pos
  unfolding probe
  probe_here zero ht size k pos rec h same = refl
  probe_here (suc fuel) ht size k pos rec h same = rw (h, same, probe)

  pub probe_next :
      (fuel : ℕ) (ht : List (Option R)) (size : ℕ) (k : K) (pos : ℕ) (rec : R)
      → slot ht pos ≡ some rec
      → e.beq (key rec) k ≡ false
      → probe key (suc fuel) ht size k pos ≡ probe key fuel ht size k (bit_and (pos + 1) (size - 1))
  unfolding probe
  probe_next fuel ht size k pos rec h other = rw (h, other, probe)

  -- A record written to an empty slot leaves each search that ends at a record as it was.
  pub probe-set_other :
      (fuel : ℕ) (ht : List (Option R)) (size : ℕ) (k : K) (pos p : ℕ) (rec new : R)
      → slot ht p ≡ none
      → slot ht (probe key fuel ht size k pos) ≡ some rec
      → probe key fuel (set ht p (some new)) size k pos ≡ probe key fuel ht size k pos
  probe-set_other zero ht size k pos p rec new free found = unfold probe in refl
  probe-set_other (suc fuel) ht size k pos p rec new free found =
      elim (Option-cases (slot ht pos)) [
        | inl empty ↦ absurd (cc (probe_empty (suc fuel) ht size k pos empty))
        | inr (r, here) ↦
            let apart : p ≢ pos = λ same. cc (ap (slot ht) same) in
            let kept : slot (set ht p (some new)) pos ≡ some r =
              get_or-set_ne ht p pos (some new) none apart ∙ here in
            elim (Bool-cases (e.beq (key r) k)) [
              | inl same ↦
                  probe_here (suc fuel) (set ht p (some new)) size k pos r kept same
                  ∙ sym (probe_here (suc fuel) ht size k pos r here same)
              | inr other ↦
                  let step = probe_next fuel ht size k pos r here other in
                  probe_next fuel (set ht p (some new)) size k pos r kept other
                  ∙ probe-set_other fuel ht size k (bit_and (pos + 1) (size - 1)) p rec new free
                      (ap (slot ht) (sym step) ∙ found)
                  ∙ sym step
            ]
      ]

  slot-set_free :
      (ht : List (Option R)) (i : ℕ) (new : R)
      → slot ht i ≡ none
      → (slot (set ht i (some new)) i ≡ some new) ⊎ (slot (set ht i (some new)) i ≡ none)
  slot-set_free [] i new h = inr refl
  slot-set_free (x ∷ xs) zero new h = inl refl
  slot-set_free (x ∷ xs) (suc i) new h = slot-set_free xs i new h

  -- The search for a key that ended at an empty slot finds the record that is written there.
  pub probe-set_self :
      (fuel : ℕ) (ht : List (Option R)) (size : ℕ) (k : K) (pos : ℕ) (new : R)
      → slot ht (probe key fuel ht size k pos) ≡ none
      → e.beq (key new) k ≡ true
      → probe key fuel (set ht (probe key fuel ht size k pos) (some new)) size k pos
        ≡ probe key fuel ht size k pos
  probe-set_self zero ht size k pos new free same = unfold probe in refl
  probe-set_self (suc fuel) ht size k pos new free same = elim (Option-cases (slot ht pos)) [
    | inl empty ↦
        rw (probe_empty (suc fuel) ht size k pos empty) (elim (slot-set_free ht pos new empty) [
          | inl there ↦ probe_here (suc fuel) (set ht pos (some new)) size k pos new there same
          | inr absent ↦ probe_empty (suc fuel) (set ht pos (some new)) size k pos absent
        ])
    | inr (r, here) ↦ elim (Bool-cases (e.beq (key r) k)) [
      | inl hit ↦ absurd (cc (probe_here (suc fuel) ht size k pos r here hit))
      | inr miss ↦
          let pos' = bit_and (pos + 1) (size - 1) in
          let p = probe key fuel ht size k pos' in
          let step = probe_next fuel ht size k pos r here miss in
          let empty : slot ht p ≡ none = ap (slot ht) (sym step) ∙ free in
          let apart : p ≢ pos = λ eq. cc (ap (slot ht) eq) in
          let kept : slot (set ht p (some new)) pos ≡ some r =
            get_or-set_ne ht p pos (some new) none apart ∙ here in
          rw step (
            probe_next fuel (set ht p (some new)) size k pos r kept miss
            ∙ probe-set_self fuel ht size k pos' new empty same)
    ]
  ]

  -- A search reads only which keys stand where.
  pub probe_ext :
      (fuel : ℕ) (ht ht' : List (Option R)) (size : ℕ) (k : K) (pos : ℕ)
      → ((i : ℕ) → Option.map key (slot ht i) ≡ Option.map key (slot ht' i))
      → probe key fuel ht size k pos ≡ probe key fuel ht' size k pos
  probe_ext zero ht ht' size k pos same = unfold probe in refl
  probe_ext (suc fuel) ht ht' size k pos same =
      go (slot ht pos) (slot ht' pos) refl refl (same pos)
        (probe_ext fuel ht ht' size k (bit_and (pos + 1) (size - 1)) same)
    where
      go :
          (a b : Option R)
          → slot ht pos ≡ a
          → slot ht' pos ≡ b
          → Option.map key a ≡ Option.map key b
          → probe key fuel ht size k (bit_and (pos + 1) (size - 1))
            ≡ probe key fuel ht' size k (bit_and (pos + 1) (size - 1))
          → probe key (suc fuel) ht size k pos ≡ probe key (suc fuel) ht' size k pos
      go none none h h' eq rest =
          probe_empty (suc fuel) ht size k pos h ∙ sym (probe_empty (suc fuel) ht' size k pos h')
      go none (some b) h h' eq rest = cc
      go (some a) none h h' eq rest = cc
      go (some a) (some b) h h' eq rest =
          let same_key : key a ≡ key b = cc in
          elim (Bool-cases (e.beq (key a) k)) [
            | inl hit ↦
                probe_here (suc fuel) ht size k pos a h hit
                ∙ sym (probe_here (suc fuel) ht' size k pos b h' (rw same_key at hit))
            | inr miss ↦
                probe_next fuel ht size k pos a h miss
                ∙ rest
                ∙ sym (probe_next fuel ht' size k pos b h' (rw same_key at miss))
          ]

  -- Where an empty slot lies `d` steps ahead, `d + 1` rounds end the search by its own test.
  pub probe_stops :
      (fuel d w : ℕ) (ht : List (Option R)) (k : K) (pos : ℕ)
      → d < fuel
      → slot ht ((pos + d) % 2 ^ w) ≡ none
      → pos < 2 ^ w
      → Stopped key (slot ht (probe key fuel ht (2 ^ w) k pos)) k
  probe_stops zero d w ht k pos le free lt = absurd (omega arith)
  probe_stops (suc fuel) zero w ht k pos le free lt =
      let at_pos : (pos + 0) % 2 ^ w ≡ pos = rw add-zero (mod-eq_of_lt lt) in
      let empty : slot ht pos ≡ none = ap (slot ht) (sym at_pos) ∙ free in
      rw (probe_empty (suc fuel) ht (2 ^ w) k pos empty, empty) tt
  probe_stops (suc fuel) (suc d) w ht k pos le free lt = elim (Option-cases (slot ht pos)) [
    | inl empty ↦ rw (probe_empty (suc fuel) ht (2 ^ w) k pos empty, empty) tt
    | inr (r, here) ↦ elim (Bool-cases (e.beq (key r) k)) [
      | inl hit ↦
          rw (probe_here (suc fuel) ht (2 ^ w) k pos r here hit, here) ((e.beq_iff (key r) k).0 hit)
      | inr miss ↦
          let ahead : ((pos + 1) % 2 ^ w + d) % 2 ^ w ≡ (pos + suc d) % 2 ^ w =
            mod-add-mod (pos + 1) (2 ^ w) d ∙ ap (λ (t : ℕ). t % 2 ^ w) (omega arith) in
          rw (probe_next fuel ht (2 ^ w) k pos r here miss, bit_and_mask w (pos + 1))
            (probe_stops fuel d w ht k ((pos + 1) % 2 ^ w) (omega arith) (ap (slot ht) ahead ∙ free)
              (omega arith))
    ]
  ]

  -- The search stays inside the table.
  pub probe-lt :
      (fuel w : ℕ) (ht : List (Option R)) (k : K) (pos : ℕ)
      → pos < 2 ^ w
      → probe key fuel ht (2 ^ w) k pos < 2 ^ w
  probe-lt zero w ht k pos lt = unfold probe in lt
  probe-lt (suc fuel) w ht k pos lt = elim (Option-cases (slot ht pos)) [
    | inl empty ↦ rw (probe_empty (suc fuel) ht (2 ^ w) k pos empty) lt
    | inr (r, here) ↦ elim (Bool-cases (e.beq (key r) k)) [
      | inl hit ↦ rw (probe_here (suc fuel) ht (2 ^ w) k pos r here hit) lt
      | inr miss ↦
          rw (probe_next fuel ht (2 ^ w) k pos r here miss, bit_and_mask w (pos + 1))
            (probe-lt fuel w ht k ((pos + 1) % 2 ^ w) (omega arith))
    ]
  ]

  -- Both for a table's size that is known to be a power of two.
  pub probe-lt_sized :
      (size fuel w : ℕ) (ht : List (Option R)) (k : K) (pos : ℕ)
      → size ≡ 2 ^ w
      → pos < size
      → probe key fuel ht size k pos < size
  probe-lt_sized size fuel w ht k pos sized lt =
      rw sized (probe-lt fuel w ht k pos (rw sized at lt))

  pub probe_stops_sized :
      (size d w : ℕ) (ht : List (Option R)) (k : K) (pos : ℕ)
      → size ≡ 2 ^ w
      → d < size
      → slot ht ((pos + d) % size) ≡ none
      → pos < size
      → Stopped key (slot ht (probe key size ht size k pos)) k
  probe_stops_sized size d w ht k pos sized near free lt =
      rw sized
        (probe_stops (2 ^ w) d w ht k pos (rw sized at near) (rw sized at free) (rw sized at lt))
