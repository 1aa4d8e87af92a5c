-- ===== src/Datastruct/Rwhashtab/Tests.antt =====
-- Runs of the hash table, over numbers that are their own keys and all begin at one slot.
use tarsnap.Base.{ℕ, ◌+◌, ◌*◌, ◌≡◌, refl, Bool, true, none, some, List, [], ◌∷◌, arith, nat_eq}
use tarsnap.Datastruct.KeyedTable.{present}
use tarsnap.Datastruct.Rwhashtab.{
  Rwhashtab, slot, probe, home, search_pos, place, rehash, enlarge, insert_free, insert, read, init,
}
use tarsnap.Datastruct.Rwhashtab.Slots.{find}
use tarsnap.Datastruct.Rwhashtab.Probe.{Stopped}
use tarsnap.Datastruct.Rwhashtab.Table.{search_stops, read-find}
use tarsnap.Datastruct.Rwhashtab.Insert.{IsValid, Outcome, insert-Outcome}
use tarsnap.Datastruct.Rwhashtab.Implements.{init-IsValid}

abbrev self : ℕ → ℕ
self r = r

abbrev hash_four : List ℕ → ℕ → ℕ
hash_four bytes k = 4 * k + 2

abbrev grants : ℕ → Bool
grants n = true

abbrev t0 : Rwhashtab ℕ
t0 = record { cursize = 4; numentries = 0; ht = none ∷ none ∷ none ∷ none ∷ []; randbuf = 7 ∷ [] }

abbrev t1 : Rwhashtab ℕ
t1 = (insert self hash_four grants t0 11).0

abbrev t2 : Rwhashtab ℕ
t2 = (insert self hash_four grants t1 12).0

abbrev t3 : Rwhashtab ℕ
t3 = (insert self hash_four grants t2 13).0

t0-IsValid : IsValid self hash_four t0
unfolding init
t0-IsValid = (init-IsValid self hash_four 32 (some (7 ∷ [])) grants t0 refl).0

t1-IsValid : IsValid self hash_four t1
t1-IsValid = (insert-Outcome self hash_four grants t0 11 t0-IsValid).0

t2-IsValid : IsValid self hash_four t2
t2-IsValid = (insert-Outcome self hash_four grants t1 12 t1-IsValid).0

t3-IsValid : IsValid self hash_four t3
t3-IsValid = (insert-Outcome self hash_four grants t2 13 t2-IsValid).0

-- The three records stand in a row from slot 2 on, round the end of the table.
t3_slots : t3.ht ≡ some 13 ∷ none ∷ some 11 ∷ some 12 ∷ []
unfolding insert insert_free search_pos home probe
t3_slots = refl

-- The fourth enlarges the table.
t4_size : (insert self hash_four grants t3 14).0.cursize ≡ 8
unfolding insert insert_free enlarge rehash place search_pos home probe
t4_size = refl

t3_again : (insert self hash_four grants t2 12).1 ≡ present
unfolding insert insert_free enlarge rehash place search_pos home probe
t3_again = refl

insert-Outcome_example :
    IsValid self hash_four (insert self hash_four grants t3 14).0
    × Outcome self hash_four t3 14 (insert self hash_four grants t3 14)
insert-Outcome_example = insert-Outcome self hash_four grants t3 14 t3-IsValid

search_stops_example : Stopped self (slot t3.ht (search_pos self hash_four t3 13)) 13
unfolding insert insert_free search_pos home probe
search_stops_example = search_stops self hash_four t3 t3-IsValid.table 13 (omega arith)

read-find_example : read self hash_four t3 13 ≡ find self 13 t3.ht
unfolding insert insert_free search_pos home probe
read-find_example = read-find self hash_four t3 t3-IsValid.table 13 (omega arith)
