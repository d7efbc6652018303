-- ===== src/Dict/Refines.antt =====
-- The methods of dict.rs against a finite map: each keeps the invariant, and `get` answers as the
-- map does.
use seedstone.Base.{
  ℕ, ◌+◌, ◌%◌, ◌^◌, ◌≡◌, refl, ◌∙◌, ap, sym, ◌||◌, Bool, Bytes, bytes_eq, bytes_eq_iff, some, none,
  length, arith, Option, Option-cases, Bool-cases, inl, inr, is_some, if◌then◌else◌, false, leb,
}
use mathlib.Core.Option
use seedstone.Dict.{
  Dict, DictSeed, with_seed, hash_key, get, find_entry, make_room, advance_rehash, insert, remove,
  set_deadline, touch,
}
use seedstone.Dict.Buckets.{Entry, initial_buckets}
use seedstone.Dict.Weigh.{at_key, weigh-replicate}
use seedstone.Dict.Placed.{IsPlaced-replicate}
use seedstone.Dict.Valid.{IsValid-flag, one_entry, bytes_of, dated_of}
use seedstone.Dict.Growth.{IsSound, Same, start_rehash-Same, find-replicate}
use seedstone.Dict.Step.{rehash_step-Same}
use seedstone.Dict.Operations.{place_entry-Updates, set_deadline-Updates, touch-Updates}
use seedstone.Dict.Removal.{remove_entry-get, remove_entry-Updates}

-- One key mapped: the two ways to say it, by what the key holds and by a function.
map-found :
    (f : Entry → Entry) (old : Bytes → Option Entry) (key q : Bytes) (x : Entry)
    → old key ≡ some x
    → (if bytes_eq key q then some (f x) else old q)
      ≡ (if bytes_eq key q then Option.map f (old q) else old q)
map-found f old key q x found = elim (Bool-cases (bytes_eq key q)) [
  | inl e ↦ rw (e, ← (bytes_eq_iff key q).0 e, found)
  | inr e ↦ rw e
]

map-absent :
    (f : Entry → Entry) (old : Bytes → Option Entry) (key q : Bytes)
    → old key ≡ none
    → old q ≡ (if bytes_eq key q then Option.map f (old q) else old q)
map-absent f old key q absent = elim (Bool-cases (bytes_eq key q)) [
  | inl e ↦ rw (e, ← (bytes_eq_iff key q).0 e, absent)
  | inr e ↦ rw e
]

off_left : (a b : Bool) → (a || b) ≡ false → a ≡ false
off_left a b h = ground arith

module _ (sip_hash : ℕ → ℕ → Bytes → ℕ) where
  -- A fresh keyspace is sound and holds no key.
  pub with_seed_lem :
      (seed : DictSeed)
      → IsSound sip_hash (with_seed seed) × ((q : Bytes) → get sip_hash (with_seed seed) q ≡ none)
  unfolding with_seed get find_entry
  with_seed_lem seed = (
    (
      3,
      record {
        laid = record {
          width = refl;
          placed = IsPlaced-replicate (hash_key sip_hash seed) initial_buckets;
          growth = tt;
        };
        unique = λ q. omega (arith, weigh-replicate (at_key q) initial_buckets);
        counted = omega (arith, weigh-replicate one_entry initial_buckets);
        accounted = omega (arith, weigh-replicate bytes_of initial_buckets);
        dated = omega (arith, weigh-replicate dated_of initial_buckets);
        flagged = λ _. refl;
      },
    ),
    λ q. rw (find-replicate initial_buckets (hash_key sip_hash seed q) q),
  )

  make_room-Same : (d : Dict) → IsSound sip_hash d → Same sip_hash d (make_room d)
  unfolding make_room
  make_room-Same d sound = elim (Option-cases d.new) [
    | inl e ↦ elim (Bool-cases (leb (length d.old) d.len)) [
      | inl full ↦ rw (ap is_some e, full) (start_rehash-Same sip_hash d e sound)
      | inr room ↦
          rw (ap is_some e, room)
            (record { sound = sound; answers = λ q. refl; seed = refl; len = refl })
    ]
    | inr (new, e) ↦ rw (ap is_some e) (rehash_step-Same sip_hash 1 d sound)
  ]

  pub advance_rehash-Same : (d : Dict) → IsSound sip_hash d → Same sip_hash d (advance_rehash d)
  unfolding advance_rehash
  advance_rehash-Same d sound = elim (Bool-cases (is_some d.new)) [
    | inl e ↦ rw e (rehash_step-Same sip_hash 1 d sound)
    | inr e ↦ rw e (record { sound = sound; answers = λ q. refl; seed = refl; len = refl })
  ]

  -- `insert` keeps a keyspace sound. Afterwards its key holds the entry, and every other key holds
  -- what it held, whether or not a rehash was in flight or started.
  pub insert_lem :
      (d : Dict) (key : Bytes) (entry : Entry)
      → IsSound sip_hash d
      → IsSound sip_hash (insert sip_hash d key entry)
        × ((q : Bytes)
            → get sip_hash (insert sip_hash d key entry) q
              ≡ (if bytes_eq key q then some entry else get sip_hash d q))
  unfolding insert
  insert_lem d key entry sound =
      let same = make_room-Same d sound in
      let (k, valid) = same.sound in
      let updates = place_entry-Updates sip_hash k (make_room d) valid key entry in
      ((k, updates.valid), λ q. rw (updates.answers q, same.answers q))

  -- `remove` keeps a keyspace sound and returns what its key held. Afterwards the key holds
  -- nothing, and every other key holds what it held.
  pub remove_lem :
      (d : Dict) (key : Bytes)
      → IsSound sip_hash d
      → IsSound sip_hash (remove sip_hash d key).1
        × ((remove sip_hash d key).0 ≡ get sip_hash d key)
        × ((q : Bytes)
            → get sip_hash (remove sip_hash d key).1 q
              ≡ (if bytes_eq key q then none else get sip_hash d q))
  unfolding remove
  remove_lem d key sound =
      let same = advance_rehash-Same d sound in
      let (k, valid) = same.sound in
      let updates = remove_entry-Updates sip_hash k (advance_rehash d) valid key in
      (
        (k, updates.valid),
        remove_entry-get sip_hash k (advance_rehash d) valid key ∙ same.answers key,
        λ q. rw (updates.answers q, same.answers q),
      )

  -- `set_deadline` keeps a keyspace sound and answers whether the key was there. Afterwards the
  -- key holds its entry with the new deadline, if it held one, and every other key what it held.
  pub set_deadline_lem :
      (d : Dict) (key : Bytes) (expires_at : Option ℕ)
      → IsSound sip_hash d
      → IsSound sip_hash (set_deadline sip_hash d key expires_at).1
        × ((set_deadline sip_hash d key expires_at).0 ≡ is_some (get sip_hash d key))
        × ((q : Bytes)
            → get sip_hash (set_deadline sip_hash d key expires_at).1 q ≡ (
                if bytes_eq key q
                then Option.map
                    (λ (e : Entry). record e { expires_at = expires_at })
                    (get sip_hash d q)
                else get sip_hash d q))
  unfolding set_deadline get
  set_deadline_lem d key expires_at (k, valid) =
      let f = λ (e : Entry). record e { expires_at = expires_at } in
      elim (Option-cases (get sip_hash d key)) [
        | inr (x, found) ↦
            let (updates, there) = set_deadline-Updates sip_hash k d valid key expires_at x found in
            (
              (k, updates.valid),
              there ∙ ap (λ (o : Option Entry). is_some o) (sym found),
              λ q. updates.answers q ∙ map-found f (get sip_hash d) key q x found,
            )
        | inl absent ↦
            rw (absent, set_deadline)
              (
                (
                  k,
                  IsValid-flag sip_hash k d (d.may_hold_deadlines || is_some expires_at) d.clock
                      (λ off.
                        valid.flagged (off_left d.may_hold_deadlines (is_some expires_at) off))
                      valid,
                ),
                refl,
                λ q. map-absent f (get sip_hash d) key q absent,
              )
      ]

  -- `touch` keeps a keyspace sound, and changes no more than the stamp of its key's entry.
  pub touch_lem :
      (d : Dict) (key : Bytes)
      → IsSound sip_hash d
      → IsSound sip_hash (touch sip_hash d key)
        × ((q : Bytes)
            → get sip_hash (touch sip_hash d key) q ≡ (
                if bytes_eq key q
                then Option.map
                    (λ (e : Entry). record e { touched = (d.clock + 1) % 2 ^ 32 })
                    (get sip_hash d q)
                else get sip_hash d q))
  unfolding touch get
  touch_lem d key (k, valid) =
      let f = λ (e : Entry). record e { touched = (d.clock + 1) % 2 ^ 32 } in
      elim (Option-cases (get sip_hash d key)) [
        | inr (x, found) ↦
            let updates = touch-Updates sip_hash k d valid key x found in
            (
              (k, updates.valid),
              λ q. updates.answers q ∙ map-found f (get sip_hash d) key q x found,
            )
        | inl absent ↦
            rw (absent, touch)
              (
                (
                  k,
                  IsValid-flag sip_hash k d d.may_hold_deadlines ((d.clock + 1) % 2 ^ 32)
                      valid.flagged valid,
                ),
                λ q. map-absent f (get sip_hash d) key q absent,
              )
      ]
