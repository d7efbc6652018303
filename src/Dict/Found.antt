-- ===== src/Dict/Found.antt =====
-- What a keyspace answers stands in one of its buckets, so it counts in every sum over its slots.
use mathlib.Core.List.{Memᴰ}
use seedstone.Base.{
  ℕ, ◌≤◌, ◌≡◌, sym, ap, ◌∙◌, arith, Bytes, some, [], ◌∷◌, length, get_or, is_some, some-inj,
  false≢true, Bool-cases, Option-cases, inl, inr,
}
use seedstone.Dict.{Dict, hash_key, get, find_entry}
use seedstone.Dict.Buckets.{Bucket, Entry, Slot, Table, bucket_index, find, find_slot, matches}
use seedstone.Dict.Weigh.{Weight, weigh, weigh_bucket, weigh_bucket-le, slot_at, matches→eq}
use seedstone.Dict.Tables.{weigh_new}
use seedstone.Dict.Valid.{total}

-- What a bucket answers stands in it.
pub find_slot-Mem :
    (bucket : Bucket) (hash : ℕ) (key : Bytes) (x : Entry)
    → find_slot bucket hash key ≡ some x
    → Memᴰ (slot_at hash key x) bucket
unfolding find_slot
find_slot-Mem [] hash key x e = absurd (false≢true (ap is_some e))
find_slot-Mem (slot ∷ rest) hash key x e = elim (Bool-cases (matches slot hash key)) [
  | inl same ↦
      let entry : some slot.entry ≡ some x = rw same at e in
      Memᴰ.head (sym (matches→eq slot hash key same ∙ ap (slot_at hash key) (some-inj entry)))
  | inr other ↦ Memᴰ.tail (find_slot-Mem rest hash key x (rw other at e))
]

Mem-weigh_bucket :
    (w : Weight) (slot : Slot) (bucket : Bucket) → Memᴰ slot bucket → w slot ≤ weigh_bucket w bucket
unfolding weigh_bucket
Mem-weigh_bucket w slot [] m = elim m [ ]
Mem-weigh_bucket w slot (x ∷ rest) (Memᴰ.head e) = omega (arith, ap w e)
Mem-weigh_bucket w slot (x ∷ rest) (Memᴰ.tail m) = omega (arith, Mem-weigh_bucket w slot rest m)

find-weigh :
    (w : Weight) (table : Table) (hash : ℕ) (key : Bytes) (x : Entry)
    → find table hash key ≡ some x
    → w (slot_at hash key x) ≤ weigh w table
unfolding find
find-weigh w table hash key x e =
    let bucket = get_or table (bucket_index hash (length table)) [] in
    omega (
      arith,
      weigh_bucket-le w table (bucket_index hash (length table)),
      Mem-weigh_bucket w (slot_at hash key x) bucket (find_slot-Mem bucket hash key x e),
    )

pub get-weigh :
    (sip_hash : ℕ → ℕ → Bytes → ℕ) (w : Weight) (d : Dict) (key : Bytes) (x : Entry)
    → get sip_hash d key ≡ some x
    → w (slot_at (hash_key sip_hash d.seed key) key x) ≤ total w d
unfolding get find_entry
get-weigh sip_hash w d key x found =
    let hash = hash_key sip_hash d.seed key in
    elim (Option-cases (find d.old hash key)) [
      | inr (y, e) ↦ omega (arith, find-weigh w d.old hash key x (rw e (rw e at found)))
      | inl e ↦ elim (Option-cases d.new) [
        | inl n ↦ absurd (false≢true (ap is_some (rw (e, n) at found)))
        | inr (new, n) ↦
            omega (arith, ap (weigh_new w) n, find-weigh w new hash key x (rw (e, n) at found))
      ]
    ]
