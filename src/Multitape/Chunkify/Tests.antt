-- ===== src/Multitape/Chunkify/Tests.antt =====
-- A small chunkifier, and the theorems on it applied.
use tarsnap.Base.{
  ℕ, ◌%◌, ◌^◌, ◌+◌, ◌*◌, ◌≤◌, ◌<◌, ◌≡◌, refl, Bool, Option, none, some, List, [], ◌∷◌, ◌++◌, arith,
  replicate, set, bit_and,
}
use tarsnap.Multitape.Chunkify.{
  isprime, Chunkifier, negated_inverse, mmul, isqrt, table_size, chunkify_start, chunkify_write,
  add_byte, widen, look, insert_queued,
}
use tarsnap.Multitape.Chunkify.Root.{IsRoot, IsSized, add_byte-IsRoot}
use tarsnap.Multitape.Chunkify.Montgomery.{mmul-exact, negated_inverse_lem}
use tarsnap.Multitape.Chunkify.Primes.{Decided, isprime-Decided}
use tarsnap.Multitape.Chunkify.Table.{loops_stop}
use tarsnap.Multitape.Chunkify.Conserved.{IsCut, chunkify_write-IsCut}
use tarsnap.Multitape.Chunkify.Written.{IsValid, chunkify_start-IsValid}
use tarsnap.Multitape.Chunkify.Sizes.{isqrt_lem, init-IsSized}

-- For chunks of mean length 16 and maximal length 40, with made-up coefficients.
abbrev parameters : Chunkifier
parameters = record {
  mu = 16;
  p = 67;
  pp = 2051380309;
  ar = 3;
  cm = replicate 256 5;
  htlen = 64;
  blen = 40;
  w = 32;
  k = 0;
  r = 0;
  rs = 0;
  akr = 0;
  yka = 0;
  b = [];
  ht = [];
  buf = [];
}

parameters-IsSized : IsSized parameters
unfolding table_size
parameters-IsSized = init-IsSized parameters (omega arith) (omega arith) (omega arith) refl

abbrev fresh : Chunkifier
fresh = chunkify_start parameters

fresh-IsValid : IsValid fresh
fresh-IsValid = chunkify_start-IsValid parameters parameters-IsSized

-- The callback keeps the chunks and never fails.
abbrev keep : List (List ℕ) → List ℕ → List (List ℕ) × Option ℕ
keep s chunk = (s ++ (chunk ∷ []), none)

chunkify_write-IsCut_example :
    (answer : List (List ℕ) × Chunkifier × Option ℕ) × (chunkify_write keep [] fresh
        (replicate 100 7)
      ≡ some answer)
    × IsCut keep [] fresh (fresh.buf ++ replicate 100 7) answer
chunkify_write-IsCut_example = chunkify_write-IsCut keep [] fresh (replicate 100 7) fresh-IsValid

add_byte-IsRoot_example :
    IsRoot 16 1 (add_byte fresh 7).r (add_byte fresh 7).rs
    × ((add_byte fresh 7).k ≡ 1)
    × (2 * (add_byte fresh 7).r < 64)
unfolding chunkify_start
add_byte-IsRoot_example =
    add_byte-IsRoot fresh 7 fresh-IsValid.sized fresh-IsValid.room fresh-IsValid.root

abbrev second : Chunkifier
second = add_byte fresh 7

loops_stop_example :
    ((b : Bool) × (look 64 second (bit_and 9 63) ≡ some b))
    × ((i : ℕ) × (insert_queued 64 second 5 (bit_and 5 63) ≡ some (set second.ht i (second.k, 5))))
unfolding chunkify_start add_byte widen
loops_stop_example =
    loops_stop second 6 refl 0 9 5 refl (omega arith) (omega arith) fresh-IsValid.table

isqrt_lem_example :
    (isqrt 65536 * isqrt 65536 ≤ 65536) × (65536 < (isqrt 65536 + 1) * (isqrt 65536 + 1))
isqrt_lem_example = isqrt_lem 65536 (omega arith)

init-IsSized_example : IsSized parameters
unfolding table_size
init-IsSized_example = init-IsSized parameters (omega arith) (omega arith) (omega arith) refl

negated_inverse_lem_example : (67 * negated_inverse 67 + 1) % 2 ^ 32 ≡ 0
negated_inverse_lem_example = negated_inverse_lem 67 (omega arith) refl

mmul-exact_example :
    (k : ℕ) × (k < 2 ^ 32) × (mmul 1000 66 67 (negated_inverse 67) * 2 ^ 32 ≡ 1000 * 66 + k * 67)
mmul-exact_example =
    mmul-exact 1000 66 67 (negated_inverse 67) (omega arith) (omega arith)
      (negated_inverse_lem 67 (omega arith) refl)

isprime-Decided_example : Decided 97 (isprime 97)
isprime-Decided_example = isprime-Decided 97 (omega arith)
