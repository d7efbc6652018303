-- ===== src/Tests/EvictionRuns.antt =====
-- A run of the eviction, on a shard with one key, where the gauge reads 400 and then 240.
use seedstone.Base.{
  ◌∷◌, pos, sym, ap, ◌∙◌, some-inj, none≢some, Bool, false, true, ◌<◌, ◌^◌, ℕ, zero, suc, ◌≡◌, refl,
  arith, Bytes, bytes_eq, codes, Option, some, none, is_some, List, [], false≢true, subst,
  bytes_eq_iff, length, Bool-cases, inl, inr,
}
use seedstone.Dict
use seedstone.Dict.Buckets.{Entry, bucket_index, find}
use seedstone.Dict.Refines.{with_seed_lem, insert_lem}
use seedstone.Log.Effect
use seedstone.Sweep.{sample_oldest}
use seedstone.Walk.{scan}
use seedstone.Base.{reverse_bits}
use seedstone.Shard.State.{LogRecord, ShardState, commit}
use seedstone.Shard.Meaning.Writes.{IsWritable}
use seedstone.Shard.Reclaim.{evict_until_fits}
use seedstone.Shard.Executor.Removed.{IsEvictable}
use seedstone.Shard.Executor.Evicted.{Evicted, evict_until_fits_lem}
use seedstone.Memory.{MemoryLimit, all_keys_lru, past_ceiling}
use seedstone.Dict.Growth.{IsSound}
use seedstone.Sweep.{deadlines, reached}
use seedstone.Walk.{reverse_increment}
use seedstone.Shard.Command.{Command}
use seedstone.Shard.Reply.{Reply, integer}
use seedstone.Shard.Apply.{apply}
use seedstone.Shard.Executor.{Executor, Asked, serving, serve_all}
use seedstone.Shard.Executor.Batch.{AllServe, AllLogged}
use seedstone.Shard.Executor.Served.{EvictsOn, serve_all_lem}
use seedstone.Tests.DictRuns.{sum_hash, fresh}
use seedstone.Tests.ShardRuns.{
  list_log_laws, policy, far, now, list_log, dated, expiring, expiring-IsSound,
}

abbrev readings : ℕ → ℕ
readings zero = 400
readings (suc n) = 240

dated-short : (q : Bytes) → is_some (Dict.get sum_hash dated q) ≡ true → IsWritable q
dated-short q here =
    let entry : Entry = record { value = codes "v"; expires_at = some 1500000000; touched = 0 } in
    let (fresh_sound, empty) = with_seed_lem sum_hash (record { k0 = 7; k1 = 11 }) in
    let (sound, answers) = insert_lem sum_hash fresh (codes "k") entry fresh_sound in
    elim (Bool-cases (bytes_eq (codes "k") q)) [
      | inl e ↦ subst (λ b. length b < 2 ^ 32) ((bytes_eq_iff (codes "k") q).0 e) (omega arith)
      | inr e ↦ absurd (false≢true (rw (answers q, e, empty q) at here))
    ]

dated_bytes : dated.used_bytes ≡ 290
unfolding Dict.insert Dict.with_seed Dict.get bucket_index find
dated_bytes = refl

dated_len : dated.len ≡ 1
unfolding Dict.insert Dict.with_seed Dict.get bucket_index find
dated_len = refl

expiring-IsEvictable : IsEvictable sum_hash expiring
expiring-IsEvictable = record {
  sound = expiring-IsSound;
  counted = omega (arith, dated_bytes);
  word = omega arith;
  short = dated-short;
}

evict_until_fits_lem_example :
    (s' : ShardState (List LogRecord)) × (moves : List (ℕ × ℕ)) × (evict_until_fits sum_hash
        list_log 3 2 expiring readings []
        (some 300)
        past_ceiling
        none
      ≡ some (s', moves))
    × Evicted sum_hash list_log 3 (some 300) past_ceiling none expiring readings [] s' moves
evict_until_fits_lem_example =
    evict_until_fits_lem sum_hash list_log 3 (some 300) past_ceiling none 2 expiring readings []
      expiring-IsEvictable (omega (arith, dated_len))

abbrev count_evicted : Option (ShardState (List LogRecord) × List (ℕ × ℕ)) → ℕ × ℕ
count_evicted none = (0, 0)
count_evicted (some (s, moves)) = (s.evicted, length moves)

-- The key goes in the first round, and the second reading ends the eviction.
one_evicted :
    count_evicted
      (evict_until_fits sum_hash list_log 3 2 expiring readings [] (some 300) past_ceiling none)
    ≡ (1, 1)
unfolding evict_until_fits past_ceiling Dict.insert Dict.with_seed Dict.get bucket_index find commit
    Effect.encode sample_oldest scan reverse_bits
one_evicted = refl

abbrev limited : MemoryLimit
limited = record { ceiling = some 300; mode = all_keys_lru }

abbrev full_executor : Executor (List LogRecord)
full_executor = record { first_shard = 3; states = expiring ∷ []; moves = []; mode = serving }

-- One command, for a key that the shard does not hold.
abbrev one_asked : List Asked
one_asked =
    record { shard = 3; cmd = Command.exists (codes "q"); used = readings; after = 1000005000 } ∷ []

exists_absent :
    apply sum_hash far list_log reverse_increment deadlines expiring 3 now
      (Command.exists (codes "q"))
    ≡ some (integer (pos 0), expiring)
unfolding apply Dict.insert Dict.with_seed Dict.get bucket_index find reached
exists_absent = refl

one-EvictsOn :
    EvictsOn sum_hash far list_log list_log_laws policy limited false now refl one_asked
      full_executor now.instant
one-EvictsOn = (
  λ s at reply t applied.
      let same : expiring ≡ s = some-inj at in
      let found : apply sum_hash far list_log reverse_increment deadlines expiring 3 now
            (Command.exists (codes "q"))
          ≡ some (reply, t) =
        subst
          (λ (u : ShardState (List LogRecord)).
            apply sum_hash far list_log reverse_increment deadlines u 3 now
              (Command.exists (codes "q"))
            ≡ some (reply, t))
          (sym same) applied in
      let result : expiring ≡ t =
        ap (λ (p : Reply × ShardState (List LogRecord)). p.1)
          (some-inj (sym exists_absent ∙ found)) in
      subst (λ (u : ShardState (List LogRecord)). IsEvictable sum_hash u) result
        expiring-IsEvictable,
  λ given e1 answered. tt,
)

full-AllServe : AllServe sum_hash far list_log list_log_laws policy limited false now full_executor
full-AllServe zero s at =
    subst (λ (t : ShardState (List LogRecord)). IsSound sum_hash t.dict × (t.refusing ≡ false))
      (some-inj at) (expiring-IsSound, refl)
full-AllServe (suc i) s at = absurd (none≢some at)

serve_all_lem_example :
    (given : List (Reply × Bool)) × (e' : Executor (List LogRecord)) × (serve_all sum_hash far
        list_log policy limited false now one_asked full_executor now.instant
      ≡ some (given, e'))
    × AllLogged sum_hash far list_log list_log_laws policy limited false now full_executor e'
serve_all_lem_example =
    serve_all_lem sum_hash far list_log list_log_laws policy limited false now refl one_asked
      full_executor now.instant full-AllServe
      (
        record { within = omega arith; state = expiring; at = refl; servable = (omega arith, tt) },
        tt,
      )
      (inr one-EvictsOn)
