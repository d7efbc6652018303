-- ===== src/Shard/Executor/Evicted.antt =====
-- The eviction of crates/seedstone-core/src/shard/executor.rs ends: each round that goes on has
-- removed a key.
use seedstone.Base.{
  ℕ, zero, suc, ◌+◌, ◌^◌, ◌<◌, ◌≡◌, refl, sym, ap, ◌∙◌, subst, arith, Bool, true, false, false≢true,
  Bytes, bytes_eq, bytes_eq_iff, Option, none, some, List, ◌∷◌, length, is_some, some-inj, ◌≢◌,
  Bool-cases, Option-cases, inl, inr, ◌⊎◌,
}
use seedstone.Dict
use seedstone.Dict.{Dict, get}
use seedstone.Dict.Buckets.{Entry}
use seedstone.Dict.Growth.{IsSound}
use seedstone.Dict.Refines.{remove_lem}
use seedstone.Log.Effect.{Effect}
use seedstone.Sweep.{sample_oldest}
use seedstone.Sweep.Eviction.{spared_self}
use seedstone.Sweep.Candidates.{sample_oldest-Sampled}
use seedstone.Shard.State.{LogRecord, ReplicationLog, ShardState, append, commit}
use seedstone.Shard.Meaning.Writes.{payload_of-some}
use seedstone.Shard.Reclaim.{evict_until_fits, eviction_samples}
use seedstone.Shard.Executor.Removed.{IsEvictable, narrow, removed-IsEvictable}

module _ (sip_hash : ℕ → ℕ → Bytes → ℕ) {L : Type 0} (ops : ReplicationLog L) (shard : ℕ)
    (ceiling : Option ℕ) (must_evict : ℕ → Option ℕ → Bool) (spared : Option Bytes) where
  -- Why an eviction has stopped: the policy says that nothing must go, or a sample has no victim,
  -- or the log has refused the record of the removal.
  abbrev pub Stopped : ℕ → ShardState L → Type 0
  Stopped reading s' =
      (must_evict reading ceiling ≡ false)
      ⊎ ((cursor : ℕ) × (sample_oldest s'.dict cursor eviction_samples spared
            ≡ some (s'.evict_cursor, none)))
      ⊎ ((l : L) × (r : LogRecord) × ((ops.append l r).0 ≡ false) × (s'.log ≡ (ops.append l r).1))

  -- What an eviction has done, in `rounds` rounds that each removed a key.
  pub record Evicted (s : ShardState L) (used : ℕ → ℕ) (moves : List (ℕ × ℕ)) (s' : ShardState L)
      (moves' : List (ℕ × ℕ)) : Type 0 where
    pub rounds : ℕ
    pub evictable : IsEvictable sip_hash s'
    pub called_for : (j : ℕ) → j < rounds → must_evict (used j) ceiling ≡ true
    pub stopped : Stopped (used rounds) s'
    pub evicted : s'.evicted ≡ s.evicted + rounds
    pub len : s'.dict.len + rounds ≡ s.dict.len
    pub moved : length moves' ≡ length moves + rounds
    pub kept :
        (q : Bytes)
        → (get sip_hash s'.dict q ≡ get sip_hash s.dict q)
          ⊎ ((get sip_hash s'.dict q ≡ none) × (spared ≢ some q))

  stays-Evicted :
      (s : ShardState L) (used : ℕ → ℕ) (moves : List (ℕ × ℕ)) (s' : ShardState L)
      → IsEvictable sip_hash s
      → s'.evict_cursor < 2 ^ 64
      → s'.dict ≡ s.dict
      → s'.evicted ≡ s.evicted
      → Stopped (used 0) s'
      → Evicted s used moves s' moves
  stays-Evicted s used moves s' h word same count why = record {
    rounds = 0;
    evictable = record {
      sound = rw same h.sound;
      counted = rw same h.counted;
      word = word;
      short = rw same h.short;
    };
    called_for = λ j below. absurd (omega (arith, below));
    stopped = why;
    evicted = omega (arith, count);
    len = rw same (omega arith);
    moved = omega arith;
    kept = λ q. inl (rw same refl);
  }

  round-kept :
      (d : Dict) (key q : Bytes) (o : Option Entry)
      → (spared ≢ some key)
      → IsSound sip_hash d
      → (o ≡ get sip_hash (Dict.remove sip_hash d key).1 q) ⊎ ((o ≡ none) × (spared ≢ some q))
      → (o ≡ get sip_hash d q) ⊎ ((o ≡ none) × (spared ≢ some q))
  round-kept d key q o fine sound (inr gone) = inr gone
  round-kept d key q o fine sound (inl same) =
      let (sound1, taken, answers) = remove_lem sip_hash d key sound in
      elim (Bool-cases (bytes_eq key q)) [
        | inl e ↦ inr (
          same ∙ (rw (answers q, e) refl),
          subst (λ k. spared ≢ some k) ((bytes_eq_iff key q).0 e) fine,
        )
        | inr e ↦ inl (same ∙ (rw (answers q, e) refl))
      ]

  round-Evicted :
      (s t : ShardState L) (used : ℕ → ℕ) (move : ℕ × ℕ) (moves : List (ℕ × ℕ)) (s' : ShardState L)
      (moves' : List (ℕ × ℕ))
      → must_evict (used 0) ceiling ≡ true
      → t.evicted ≡ s.evicted + 1
      → t.dict.len + 1 ≡ s.dict.len
      → ((q : Bytes) (o : Option Entry)
          → (o ≡ get sip_hash t.dict q) ⊎ ((o ≡ none) × (spared ≢ some q))
          → (o ≡ get sip_hash s.dict q) ⊎ ((o ≡ none) × (spared ≢ some q)))
      → Evicted t (λ round. used (suc round)) (move ∷ moves) s' moves'
      → Evicted s used moves s' moves'
  round-Evicted s t used move moves s' moves' over count fewer back done = record {
    rounds = suc done.rounds;
    evictable = done.evictable;
    called_for = λ j. earlier j;
    stopped = done.stopped;
    evicted = omega (arith, done.evicted, count);
    len = omega (arith, done.len, fewer);
    moved = omega (arith, done.moved);
    kept = λ q. back q (get sip_hash s'.dict q) (done.kept q);
  }
    where
      earlier : (j : ℕ) → j < suc done.rounds → must_evict (used j) ceiling ≡ true
      earlier zero below = over
      earlier (suc j) below = done.called_for j (omega (arith, below))

  -- On a shard with a sound keyspace, a byte figure and an eviction cursor below 2^64 and keys
  -- shorter than 2^32 bytes, the eviction returns on more rounds of fuel than the shard has keys,
  -- whatever the gauge reads in each round, and leaves such a shard. In each of a number of
  -- rounds, all called for by the policy, it has removed and counted one key and handed the gauge
  -- one move. Every key holds what it held or is gone, and the spared key is not gone. The
  -- eviction stops because the policy does not call for more, a sample has no victim, or the log
  -- has refused a record.
  pub evict_until_fits_lem :
      (fuel : ℕ) (s : ShardState L) (used : ℕ → ℕ) (moves : List (ℕ × ℕ))
      → IsEvictable sip_hash s
      → s.dict.len < fuel
      → (s' : ShardState L) × (moves' : List (ℕ × ℕ)) × (evict_until_fits sip_hash ops shard fuel s
            used moves ceiling must_evict spared
          ≡ some (s', moves'))
        × Evicted s used moves s' moves'
  unfolding evict_until_fits commit append
  evict_until_fits_lem zero s used moves h enough = absurd (omega arith)
  evict_until_fits_lem (suc fuel) s used moves h enough =
      elim (Bool-cases (must_evict (used 0) ceiling)) [
        | inr fits ↦ (
          s,
          moves,
          rw (evict_until_fits, fits) refl,
          stays-Evicted s used moves s h h.word refl refl (inl fits),
        )
        | inl over ↦
            let (k, valid) = h.sound in
            let small = narrow sip_hash k s.dict valid h.counted in
            let ((next, victim, sampled, word, here, spares), none_left) =
              sample_oldest-Sampled sip_hash k s.dict valid small s.evict_cursor eviction_samples
                spared h.word in
            let s0 = record s { evict_cursor = next } in
            elim (Option-cases victim) [
              | inl nothing ↦
                  let found = sampled ∙ ap (λ o. some (next, o)) nothing in
                  (
                    s0,
                    moves,
                    rw (evict_until_fits, over, found) refl,
                    stays-Evicted s used moves s0 h word refl refl
                        (inr (inl (s.evict_cursor, found))),
                  )
              | inr (key, chosen) ↦
                  let found = sampled ∙ ap (λ o. some (next, o)) chosen in
                  let present = here key chosen in
                  let filled : s.dict.len ≢ 0 = λ empty. false≢true (
                    ap (λ (p : ℕ × Option Bytes). is_some p.1)
                      (some-inj (sym (none_left empty) ∙ found))) in
                  let (payload, p) = payload_of-some ops (Effect.del key) (h.short key present) in
                  let r : LogRecord = record { shard = shard; seq = s.seq; payload = payload } in
                  elim (Bool-cases (ops.append s.log r).0) [
                    | inr refuses ↦
                        let s1 = record s0 { log = (ops.append s.log r).1 } in
                        (
                          s1,
                          moves,
                          rw (evict_until_fits, over, found, p, refuses) refl,
                          stays-Evicted s used moves s1 h word refl refl
                              (inr (inr (s.log, r, refuses, refl))),
                        )
                    | inl accepts ↦
                        let d = (Dict.remove sip_hash s.dict key).1 in
                        let s2 = record s0 {
                          log = (ops.append s.log r).1;
                          seq = s.seq + 1;
                          dict = d;
                          evicted = s.evicted + 1;
                        } in
                        let fine : spared ≢ some key =
                          λ e. false≢true (sym (spares key chosen) ∙ spared_self spared key e) in
                        let (after, smaller) =
                          removed-IsEvictable sip_hash s s2 key h word filled present refl in
                        let move : ℕ × ℕ = (s.dict.used_bytes, d.used_bytes) in
                        let (s', moves', ran, done) =
                          evict_until_fits_lem fuel s2 (λ round. used (suc round)) (move ∷ moves)
                            after (omega (arith, smaller)) in
                        (
                          s',
                          moves',
                          rw (evict_until_fits, over, found, p, accepts) ran,
                          round-Evicted s s2 used move moves s' moves' over refl
                              (omega (arith, smaller))
                              (λ q o. round-kept s.dict key q o fine h.sound) done,
                        )
                  ]
            ]
      ]
