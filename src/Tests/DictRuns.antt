-- ===== src/Tests/DictRuns.antt =====
-- Runs of crates/seedstone-core/src/dict.rs, under a hash that stands for SipHash: the sum of the
-- key's bytes and of the seed. Nine keys start a rehash.
use mathlib.Core.Option
use seedstone.Base.{
  ℕ, ◌+◌, ◌≡◌, ◌≤◌, arith, length, false, refl, Bytes, bytes_eq, some, none, List, [], ◌∷◌, true,
  is_some, if◌then◌else◌,
}
use seedstone.Dict.{Dict, with_seed, get, insert, remove, set_deadline, rehash_step, is_rehashing}
use seedstone.Dict.Buckets.{Entry, find, bucket_index}
use seedstone.Dict.Growth.{IsSound, Same}
use seedstone.Dict.Finish.{rehash_step-finishes}
use seedstone.Dict.Step.{rehash_step-Same}
use seedstone.Dict.Run
use seedstone.Dict.Run.{Write, run, view, map_run, run_refines}
use seedstone.Dict.Refines.{with_seed_lem, insert_lem, remove_lem, set_deadline_lem}

abbrev pub sum_hash : ℕ → ℕ → Bytes → ℕ
sum_hash k0 k1 [] = k0 + k1
sum_hash k0 k1 (b ∷ rest) = b + sum_hash k0 k1 rest

abbrev pub fresh : Dict
fresh = with_seed (record { k0 = 7; k1 = 11 })

abbrev pub plain : Bytes → Entry
plain v = record { value = v; expires_at = none; touched = 0 }

abbrev pub nine_inserts : List Write
nine_inserts =
    Run.insert (1 ∷ []) (plain (65 ∷ []))
    ∷ Run.insert (2 ∷ []) (plain (66 ∷ []))
    ∷ Run.insert (3 ∷ []) (plain (67 ∷ []))
    ∷ Run.insert (4 ∷ []) (plain (68 ∷ []))
    ∷ Run.insert (5 ∷ []) (plain (69 ∷ []))
    ∷ Run.insert (6 ∷ []) (plain (70 ∷ []))
    ∷ Run.insert (7 ∷ []) (plain (71 ∷ []))
    ∷ Run.insert (8 ∷ []) (plain (72 ∷ []))
    ∷ Run.insert (9 ∷ []) (plain (73 ∷ []))
    ∷ []

abbrev pub mixed : List Write
mixed =
    Run.set_deadline (3 ∷ []) (some 40)
    ∷ Run.remove (9 ∷ [])
    ∷ Run.touch (1 ∷ [])
    ∷ Run.rehash 3
    ∷ []

abbrev pub growing : Dict
growing = run sum_hash fresh nine_inserts

rehash_in_flight : is_rehashing growing ≡ true
unfolding run Run.step insert with_seed is_rehashing find bucket_index
rehash_in_flight = refl

nine_bytes : growing.used_bytes ≡ 1458
unfolding run Run.step insert with_seed find bucket_index
nine_bytes = refl

fresh-IsSound : IsSound sum_hash fresh
fresh-IsSound = (with_seed_lem sum_hash (record { k0 = 7; k1 = 11 })).0

pub growing-IsSound : IsSound sum_hash growing
growing-IsSound = (run_refines sum_hash fresh nine_inserts fresh-IsSound).0

run_refines_example :
    IsSound sum_hash (run sum_hash growing mixed)
    × (view sum_hash (run sum_hash growing mixed) ≡ map_run (view sum_hash growing) mixed)
run_refines_example = run_refines sum_hash growing mixed growing-IsSound

insert_lem_example :
    IsSound sum_hash (insert sum_hash growing (3 ∷ []) (plain (90 ∷ [])))
    × ((q : Bytes)
        → get sum_hash (insert sum_hash growing (3 ∷ []) (plain (90 ∷ []))) q
          ≡ (if bytes_eq (3 ∷ []) q then some (plain (90 ∷ [])) else get sum_hash growing q))
insert_lem_example = insert_lem sum_hash growing (3 ∷ []) (plain (90 ∷ [])) growing-IsSound

remove_lem_example :
    IsSound sum_hash (remove sum_hash growing (3 ∷ [])).1
    × ((remove sum_hash growing (3 ∷ [])).0 ≡ get sum_hash growing (3 ∷ []))
    × ((q : Bytes)
        → get sum_hash (remove sum_hash growing (3 ∷ [])).1 q
          ≡ (if bytes_eq (3 ∷ []) q then none else get sum_hash growing q))
remove_lem_example = remove_lem sum_hash growing (3 ∷ []) growing-IsSound

set_deadline_lem_example :
    IsSound sum_hash (set_deadline sum_hash growing (3 ∷ []) (some 40)).1
    × ((set_deadline sum_hash growing (3 ∷ []) (some 40)).0
        ≡ is_some (get sum_hash growing (3 ∷ [])))
    × ((q : Bytes)
        → get sum_hash (set_deadline sum_hash growing (3 ∷ []) (some 40)).1 q ≡ (
            if bytes_eq (3 ∷ []) q
            then Option.map
                (λ (e : Entry). record e { expires_at = some 40 })
                (get sum_hash growing q)
            else get sum_hash growing q))
set_deadline_lem_example = set_deadline_lem sum_hash growing (3 ∷ []) (some 40) growing-IsSound

rehash_step-Same_example : Same sum_hash growing (rehash_step 5 growing)
rehash_step-Same_example = rehash_step-Same sum_hash 5 growing growing-IsSound

eight_buckets : length growing.old ≤ growing.rehash_index + 8
unfolding run Run.step insert with_seed find bucket_index
eight_buckets = omega arith

rehash_step-finishes_example : is_rehashing (rehash_step 8 growing) ≡ false
rehash_step-finishes_example = rehash_step-finishes 8 growing eight_buckets
