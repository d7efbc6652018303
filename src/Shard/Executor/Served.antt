-- ===== src/Shard/Executor/Served.antt =====
-- An envelope that an executor serves to its end: the loop of `serve` in
-- crates/seedstone-core/src/shard/executor.rs returns, and every shard has logged what it changed.
use seedstone.Base.{
  ℕ, ◌-◌, ◌≤◌, ltb, All, Bytes, some, List, [], ◌∷◌, get_elem?, ◌≡◌, refl, sym, subst, arith, Bool,
  true, false, inl, inr, ◌⊎◌,
}
use seedstone.Sweep.{deadlines}
use seedstone.Memory.{MemoryLimit}
use seedstone.Shard.Clock.{Now}
use seedstone.Shard.Command.{route}
use seedstone.Shard.Reply.{Reply}
use seedstone.Shard.State.{ReplicationLog, ShardState}
use seedstone.Shard.Apply.{apply}
use seedstone.Shard.Executor.{
  ShardPolicy, Serving, Executor, Asked, is_no_eviction, answer_at, serve_all, put_back,
}
use seedstone.Shard.Logged.{IsLog}
use seedstone.Shard.Executor.Removed.{IsEvictable}
use seedstone.Shard.Executor.Batch.{
  AllServe, AllLogged, AllServe-after, answer_at-AllLogged, serve_all-AllLogged,
}
use seedstone.Shard.Executor.Returns.{IsServable, Yields, HasRoom, answer-Yields}

module _ (sip_hash : ℕ → ℕ → Bytes → ℕ) (latest : ℕ) {L : Type 0} (ops : ReplicationLog L)
    (log : IsLog ops) (policy : ShardPolicy) (limit : MemoryLimit) (acks : Bool) (now : Now)
    (production : policy.expiry ≡ deadlines) where
  -- A command for a shard of the executor that the log can write.
  pub record Served (e : Executor L) (asked : Asked) : Type 0 where
    pub within : e.first_shard ≤ asked.shard
    pub state : ShardState L
    pub at : get_elem? e.states (asked.shard - e.first_shard) ≡ some state
    pub servable : IsServable asked.cmd (route asked.cmd)

  answer_at-Yields :
      (e : Executor L) (asked : Asked) (last : ℕ)
      → AllServe sip_hash latest ops log policy limit acks now e
      → (h : Served e asked)
      → HasRoom sip_hash latest ops log policy limit acks now production h.state asked.shard
          asked.cmd
      → Yields (answer_at sip_hash latest ops policy limit acks now e asked last)
  unfolding answer_at
  answer_at-Yields e asked last serve h room =
      let offset = asked.shard - e.first_shard in
      let v : Serving L = record { state = h.state; moves = e.moves; mode = e.mode } in
      let (sound, taking) = serve offset h.state h.at in
      let ((reply, appended, w), run) =
        answer-Yields sip_hash latest ops log policy limit acks now production v asked.shard
          asked.cmd asked.used last asked.after sound h.servable room in
      let here : ltb asked.shard e.first_shard ≡ false = ground (arith, h.within) in
      (
        ((reply, appended), put_back sip_hash latest ops policy limit acks now e offset w),
        rw (here, h.at, run) refl,
      )

  Served-after :
      (e e' : Executor L) (asked : Asked)
      → AllLogged sip_hash latest ops log policy limit acks now e e'
      → Served e asked
      → Served e' asked
  Served-after e e' asked (same, logged, absent) h =
      let offset = asked.shard - e.first_shard in
      let (t, after, change) = logged offset h.state h.at in
      record {
        within = omega (arith, same, h.within);
        state = t;
        at = subst (λ n. get_elem? e'.states (asked.shard - n) ≡ some t) (sym same) after;
        servable = h.servable;
      }

  AllServed-after :
      (e e' : Executor L) (asked : List Asked)
      → AllLogged sip_hash latest ops log policy limit acks now e e'
      → All (Served e) asked
      → All (Served e') asked
  AllServed-after e e' [] logged h = h
  AllServed-after e e' (a ∷ rest) logged (one, more) =
      (Served-after e e' a logged one, AllServed-after e e' rest logged more)

  serve_all-cons :
      (a : Asked) (rest : List Asked) (e : Executor L) (last : ℕ) (first : Reply × Bool)
      (e1 : Executor L) (later : List (Reply × Bool)) (e2 : Executor L)
      → answer_at sip_hash latest ops policy limit acks now e a last ≡ some (first, e1)
      → serve_all sip_hash latest ops policy limit acks now rest e1 a.after ≡ some (later, e2)
      → serve_all sip_hash latest ops policy limit acks now (a ∷ rest) e last
        ≡ some (first ∷ later, e2)
  unfolding serve_all
  serve_all-cons a rest e last first e1 later e2 run runs =
      rw (serve_all, run, serve_all, runs) refl

  -- Along the run, what each command leaves is a shard that an eviction can work on.
  abbrev pub EvictsOn : List Asked → Executor L → ℕ → Type 0
  EvictsOn [] e last = Unit {0}
  EvictsOn (a ∷ rest) e last =
      ((s : ShardState L)
        → get_elem? e.states (a.shard - e.first_shard) ≡ some s
        → (reply : Reply) (t : ShardState L)
        → apply sip_hash latest ops policy.order policy.expiry s a.shard now a.cmd ≡ some (reply, t)
        → IsEvictable sip_hash t)
      × ((given : Reply × Bool) (e1 : Executor L)
          → answer_at sip_hash latest ops policy limit acks now e a last ≡ some (given, e1)
          → EvictsOn rest e1 a.after)

  abbrev pub CanEvict : List Asked → Executor L → ℕ → Type 0
  CanEvict asked e last = (is_no_eviction limit.mode ≡ true) ⊎ EvictsOn asked e last

  CanEvict-head :
      (a : Asked) (rest : List Asked) (e : Executor L) (last : ℕ) (h : Served e a)
      → CanEvict (a ∷ rest) e last
      → HasRoom sip_hash latest ops log policy limit acks now production h.state a.shard a.cmd
  CanEvict-head a rest e last h (inl never) = inl never
  CanEvict-head a rest e last h (inr (now_fits, later)) = inr (now_fits h.state h.at)

  CanEvict-tail :
      (a : Asked) (rest : List Asked) (e : Executor L) (last : ℕ) (given : Reply × Bool)
      (e1 : Executor L)
      → answer_at sip_hash latest ops policy limit acks now e a last ≡ some (given, e1)
      → CanEvict (a ∷ rest) e last
      → CanEvict rest e1 a.after
  CanEvict-tail a rest e last given e1 run (inl never) = inl never
  CanEvict-tail a rest e last given e1 run (inr (now_fits, later)) = inr (later given e1 run)

  serve_all-Yields :
      (asked : List Asked) (e : Executor L) (last : ℕ)
      → AllServe sip_hash latest ops log policy limit acks now e
      → All (Served e) asked
      → CanEvict asked e last
      → Yields (serve_all sip_hash latest ops policy limit acks now asked e last)
  unfolding serve_all
  serve_all-Yields [] e last serve served fits = (([], e), refl)
  serve_all-Yields (a ∷ rest) e last serve (one, more) fits =
      let ((first, e1), run) =
        answer_at-Yields e a last serve one (CanEvict-head a rest e last one fits) in
      let logged =
        answer_at-AllLogged sip_hash latest ops log policy limit acks now e a last first e1 serve
          run in
      let serve1 = AllServe-after sip_hash latest ops log policy limit acks now e e1 serve logged in
      let ((later, e2), runs) =
        serve_all-Yields rest e1 a.after serve1 (AllServed-after e e1 rest logged more)
          (CanEvict-tail a rest e last first e1 run fits) in
      ((first ∷ later, e2), serve_all-cons a rest e last first e1 later e2 run runs)

  -- Take an executor whose shards have sound keyspaces and do not refuse, with the production
  -- policy on deadlines, and an envelope of commands other than SCAN for its shards, whose keys
  -- and values are shorter than 2^32 bytes. Either nothing is ever evicted, or what each command
  -- of the run leaves, before its eviction, is a shard with a byte figure and an eviction cursor
  -- below 2^64 and keys shorter than 2^32 bytes. Then the loop of `serve` returns, evictions
  -- included; no shard is added, and each shard's keyspace is sound again; what the effects in its
  -- new records make of the keys and values it held is what it holds; and the records are numbered
  -- from its position on without a gap.
  pub serve_all_lem :
      (asked : List Asked) (e : Executor L) (last : ℕ)
      → AllServe sip_hash latest ops log policy limit acks now e
      → All (Served e) asked
      → CanEvict asked e last
      → (given : List (Reply × Bool)) × (e' : Executor L) × (serve_all sip_hash latest ops policy
            limit acks now asked e last
          ≡ some (given, e'))
        × AllLogged sip_hash latest ops log policy limit acks now e e'
  serve_all_lem asked e last serve served fits =
      let ((given, e'), run) = serve_all-Yields asked e last serve served fits in
      (
        given,
        e',
        run,
        serve_all-AllLogged sip_hash latest ops log policy limit acks now asked e last given e'
            serve run,
      )
