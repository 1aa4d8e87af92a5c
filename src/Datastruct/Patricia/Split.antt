-- ===== src/Datastruct/Patricia/Split.antt =====
-- Splitting a node: what is found under the two new nodes.
use tarsnap.Base.{
  ℕ, suc, ◌*◌, ◌/◌, ◌%◌, ◌^◌, ◌≤◌, ◌<◌, ◌≡◌, ◌≢◌, inl, inr, refl, sym, ap, ◌∙◌, bit_and, false,
  none, List, [], ◌∷◌, arith, ◌==◌, if◌then◌else◌, Bool-cases, get_or,
}
use native.Mathlib.Nat.{pow-suc, one-le-pow, mul-div_cancel}
use tarsnap.Base.Bits.Xor.{div_pow}
use tarsnap.Datastruct.Patricia.{Tree, null, node, Kids, stop, fork, above, mask_of, high_of, upper}
use tarsnap.Datastruct.Patricia.Digits.{Differ, bit, test_bit, agree_later, bit_and-above}
use tarsnap.Datastruct.Patricia.Find.{find, find_kids, after, after_common, after_ext, after_append}
use tarsnap.Datastruct.Patricia.Compare.{Next, Apart, Parts, pow_nonzero}

module _ {R : Type 0} where
  -- What a node does not lead to.
  pub miss_end :
      (s : List ℕ) (kids : Kids R) → (s ≡ [] → mask_of kids ≢ 0) → find (node s kids) [] ≡ none
  unfolding find
  miss_end (a ∷ s) kids h = refl
  miss_end [] (stop left right) h = absurd (h refl refl)
  miss_end [] (fork mask high left right) h = refl

  pub miss-Next :
      (s : List ℕ) (kids : Kids R) (c e : ℕ)
      → Next s (mask_of kids) (high_of kids) c e
      → (b : ℕ) (key : List ℕ) → b / 2 ^ e ≢ c / 2 ^ e
      → find (node s kids) (b ∷ key) ≡ none
  unfolding find
  miss-Next (a ∷ s) kids c e same b key h =
      let other : (a == b) ≡ false = elim (Bool-cases (a == b)) [
        | inl t ↦ absurd (h (ap (λ (n : ℕ). n / 2 ^ e) (sym (ground (arith, t)) ∙ same)))
        | inr f ↦ f
      ] in
      rw other refl
  miss-Next [] (stop left right) c e (same, (j, lt, is)) b key h = absurd (pow_nonzero j (sym is))
  miss-Next [] (fork mask high left right) c e (same, (j, lt, is)) b key h =
      let twice : mask * 2 ≡ 2 ^ suc j = ap (λ (n : ℕ). n * 2) is ∙ sym (pow-suc 2 j) in
      let other : (b / (mask * 2) == high / (mask * 2)) ≡ false =
        elim (Bool-cases (b / (mask * 2) == high / (mask * 2))) [
          | inl t ↦
              let agree : b / (mask * 2) ≡ high / (mask * 2) = ground (arith, t) in
              absurd (
                h (
                  agree_later (suc j) e b c (omega (arith, lt)) (
                    ap (λ (n : ℕ). b / n) (sym twice)
                    ∙ agree
                    ∙ ap (λ (n : ℕ). high / n) twice
                    ∙ ap (λ (n : ℕ). n / 2 ^ suc j) same)))
          | inr f ↦ f
        ] in
      rw other refl

  miss-Apart :
      (s : List ℕ) (kids : Kids R) (key : List ℕ) (m : ℕ)
      → Apart (mask_of kids) (high_of kids) s key m
      → find (node s kids) key ≡ none
  miss-Apart s kids key m (inl (is, zero_m, h)) = rw is (miss_end s kids h)
  miss-Apart s kids key m (inr (b, key', c, e, is, small, pow, d, next)) =
      rw is (miss-Next s kids c e next b key' (λ same. d.differ (sym (ap (λ (n : ℕ). n % 2) same))))

  pub miss :
      (s : List ℕ) (kids : Kids R) (key : List ℕ) (m : ℕ)
      → Parts (mask_of kids) (high_of kids) s key m
      → find (node s kids) key ≡ none
  unfolding find
  miss s kids key m parts =
      let f = find_kids kids in
      ap (λ (l : List ℕ). after l f key) parts.node_is
      ∙ after_append parts.common parts.low f key
      ∙ ap (after parts.common (after parts.low f)) parts.key_is
      ∙ after_common parts.common (after parts.low f) parts.rest
      ∙ miss-Apart parts.low kids parts.rest m parts.apart

  -- What is found below a node that splits at the place `e`.
  pub fork_at :
      (b e b' : ℕ) (key : List ℕ) (left right : Tree R)
      → b < 2 ^ 8
      → e < 8
      → find_kids (fork (2 ^ e) (bit_and b (above (2 ^ e))) left right) (b' ∷ key) ≡ (
          if b' / 2 ^ suc e == b / 2 ^ suc e
          then (if bit e b' == 0 then find left (b' ∷ key) else find right (b' ∷ key))
          else none)
  unfolding find
  fork_at b e b' key left right small lt =
      let p : 1 ≤ 2 ^ suc e = one-le-pow (suc e) 2 (omega arith) in
      let high : bit_and b (above (2 ^ e)) / 2 ^ suc e ≡ b / 2 ^ suc e =
        ap (λ (n : ℕ). n / 2 ^ suc e) (bit_and-above e b lt small)
        ∙ mul-div_cancel (b / 2 ^ suc e) p in
      rw (sym (pow-suc 2 e), high, test_bit e b') refl

  pub upper_at :
      (b e : ℕ) (low : Tree R)
      → (upper (2 ^ e) b low ≡ (
          if bit e b == 0
          then fork (2 ^ e) (bit_and b (above (2 ^ e))) null low
          else fork (2 ^ e) (bit_and b (above (2 ^ e))) low null))
  unfolding upper
  upper_at b e low =
      let test : (2 ^ e == 0) ≡ false = ground (arith, pow_nonzero e) in
      rw (test, test_bit e b) refl

  -- A child holds what the node at the byte `b` does not lead to.
  fork-find :
      (b e c : ℕ) (low : Tree R)
      → b < 2 ^ 8
      → Differ e c b
      → find low [] ≡ none
      → ((b' : ℕ) (key : List ℕ) → b' / 2 ^ e ≢ c / 2 ^ e → find low (b' ∷ key) ≡ none)
      → (key : List ℕ) → find_kids (upper (2 ^ e) b low) key ≡ find low key
  unfolding find
  fork-find b e c low small d at_end misses [] =
      rw (upper_at b e low) (elim (Bool-cases (bit e b == 0)) [
        | inl zero_bit ↦ rw (zero_bit, at_end) refl
        | inr one_bit ↦ rw (one_bit, at_end) refl
      ])
  fork-find b e c low small d at_end misses (b' ∷ key) =
      let other_side : bit e b' ≡ bit e b → find low (b' ∷ key) ≡ none =
        λ h. misses b' key (λ same. d.differ (sym (ap (λ (n : ℕ). n % 2) same) ∙ h)) in
      let too_high : (b' / 2 ^ suc e == b / 2 ^ suc e) ≡ false → find low (b' ∷ key) ≡ none = λ h.
        misses b' key (λ same. absurd (
          ground
            (arith, h, div_pow e b' ∙ ap (λ (n : ℕ). n / 2) same ∙ sym (div_pow e c) ∙ d.agree))) in
      rw (upper_at b e low) (elim (Bool-cases (bit e b == 0)) [
        | inl zero_bit ↦ rw (zero_bit) (
            fork_at b e b' key null low small d.place
            ∙ (elim (Bool-cases (b' / 2 ^ suc e == b / 2 ^ suc e)) [
              | inr differs ↦ rw differs (sym (too_high differs))
              | inl agrees ↦ elim (Bool-cases (bit e b' == 0)) [
                | inl zero' ↦
                    rw (agrees, zero') (sym (other_side (ground (arith, zero', zero_bit))))
                | inr one' ↦ rw (agrees, one') refl
              ]
            ]))
        | inr one_bit ↦ rw (one_bit) (
            fork_at b e b' key low null small d.place
            ∙ (elim (Bool-cases (b' / 2 ^ suc e == b / 2 ^ suc e)) [
              | inr differs ↦ rw differs (sym (too_high differs))
              | inl agrees ↦ elim (Bool-cases (bit e b' == 0)) [
                | inl zero' ↦ rw (agrees, zero') refl
                | inr one' ↦ rw (agrees, one') (sym (other_side (ground (arith, one', one_bit))))
              ]
            ]))
      ])

  pub Next-end :
      (s : List ℕ) (kids : Kids R) (c e : ℕ)
      → Next s (mask_of kids) (high_of kids) c e
      → s ≡ []
      → mask_of kids ≢ 0
  Next-end [] kids c e (same, (j, lt, is)) nil z = pow_nonzero j (sym is ∙ z)
  Next-end (a ∷ s) kids c e same nil z = absurd (cc)

  upper-find :
      (s : List ℕ) (kids : Kids R) (key : List ℕ) (m : ℕ)
      → Apart (mask_of kids) (high_of kids) s key m
      → (k : List ℕ) → find_kids (upper m (get_or key 0 0) (node s kids)) k ≡ find (node s kids) k
  unfolding upper find
  upper-find s kids key m (inl (is, zero_m, h)) [] = rw zero_m (sym (miss_end s kids h))
  upper-find s kids key m (inl (is, zero_m, h)) (b ∷ k) = rw zero_m refl
  upper-find s kids key m (inr (b, key', c, e, is, small, pow, d, next)) k =
      rw (is, pow)
        (fork-find b e c (node s kids) small d (miss_end s kids (Next-end s kids c e next))
          (miss-Next s kids c e next) k)

  -- The two new nodes of a split lead to what the node led to.
  pub split-find :
      (s : List ℕ) (kids : Kids R) (key : List ℕ) (m : ℕ)
      → (parts : Parts (mask_of kids) (high_of kids) s key m) → (k : List ℕ)
      → find (node parts.common (upper m (get_or parts.rest 0 0) (node parts.low kids))) k
        ≡ find (node s kids) k
  unfolding find
  split-find s kids key m parts k =
      let f = find_kids kids in
      after_ext parts.common (find_kids (upper m (get_or parts.rest 0 0) (node parts.low kids)))
        (after parts.low f) (upper-find parts.low kids parts.rest m parts.apart) k
      ∙ sym (after_append parts.common parts.low f k)
      ∙ ap (λ (l : List ℕ). after l f k) (sym parts.node_is)
