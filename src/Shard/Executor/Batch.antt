-- ===== src/Shard/Executor/Batch.antt =====
-- An envelope served by an executor: every shard logs what the envelope changes of it.
use seedstone.Base.{
  ==_iff, false≢true, get_elem?-set_self, get_elem?-set_ne, get_elem?-set_absent, ℕ, ◌+◌, ◌-◌, ◌==◌,
  ltb, Bytes, none, some, List, [], ◌∷◌, get_elem?, set, ◌≡◌, refl, sym, ◌∙◌, subst, arith,
  some-inj, none≢some, Bool, false, Bool-cases, Option-cases, inl, inr,
}
use seedstone.Dict.Growth.{IsSound}
use seedstone.Memory.{MemoryLimit}
use seedstone.Shard.Clock.{Now}
use seedstone.Shard.Reply.{Reply}
use seedstone.Shard.State.{ReplicationLog, ShardState}
use seedstone.Shard.Executor.{
  ShardPolicy, Serving, Executor, Asked, answer, answer_at, serve_all, put_back,
}
use seedstone.Shard.Logged.{IsLog, IsLogged-trans}
use seedstone.Shard.Logged.Handlers.{Logged}
use seedstone.Shard.Logged.Reclaim.{rest-Logged}
use seedstone.Shard.Executor.Answer.{answer-Logged}

module _ (sip_hash : ℕ → ℕ → Bytes → ℕ) (latest : ℕ) {L : Type 0} (ops : ReplicationLog L)
    (log : IsLog ops) (policy : ShardPolicy) (limit : MemoryLimit) (acks : Bool) (now : Now) where
  -- Every shard of an executor is sound and takes writes.
  abbrev pub AllServe : Executor L → Type 0
  AllServe e =
      (i : ℕ) (s : ShardState L)
      → get_elem? e.states i ≡ some s
      → IsSound sip_hash s.dict × (s.refusing ≡ false)

  -- Every shard of an executor has logged its change.
  abbrev pub AllLogged : Executor L → Executor L → Type 0
  AllLogged e e' =
      (e'.first_shard ≡ e.first_shard)
      × ((i : ℕ) (s : ShardState L)
          → get_elem? e.states i ≡ some s
          → (s' : ShardState L) × (get_elem? e'.states i ≡ some s')
            × Logged sip_hash now ops log (e.first_shard + i) s s')
      × ((i : ℕ) → get_elem? e.states i ≡ none → get_elem? e'.states i ≡ none)

  pub AllServe-after : (e e' : Executor L) → AllServe e → AllLogged e e' → AllServe e'
  AllServe-after e e' serve (same, logged, absent) i s' at =
      elim (Option-cases (get_elem? e.states i)) [
        | inl beyond ↦ absurd (none≢some (sym (absent i beyond) ∙ at))
        | inr (s, before) ↦
            let (sound, taking) = serve i s before in
            let (t, after, (es, rs, logs)) = logged i s before in
            let one : t ≡ s' = some-inj (sym after ∙ at) in
            subst (λ (u : ShardState L). IsSound sip_hash u.dict × (u.refusing ≡ false)) one
              (logs.sound, logs.refusing ∙ taking)
      ]

  AllLogged-trans : (e f g : Executor L) → AllLogged e f → AllLogged f g → AllLogged e g
  AllLogged-trans e f g (first1, a, none1) (first2, b, none2) = (
    first2 ∙ first1,
    λ i s at.
        let (t, at_t, one) = a i s at in
        let (u, at_u, two) = b i t at_t in
        (
          u,
          at_u,
          IsLogged-trans sip_hash now ops log (e.first_shard + i) s t u one
              (subst (λ n. Logged sip_hash now ops log (n + i) t u) first1 two),
        ),
    λ i at. none2 i (none1 i at),
  )

  -- one shard of the executor changed
  put_back-AllLogged :
      (e : Executor L) (offset : ℕ) (s : ShardState L) (w : Serving L)
      → AllServe e
      → get_elem? e.states offset ≡ some s
      → Logged sip_hash now ops log (e.first_shard + offset) s w.state
      → AllLogged e (put_back sip_hash latest ops policy limit acks now e offset w)
  put_back-AllLogged e offset s w serve at logged = (
    refl,
    λ i t at_i. elim (Bool-cases (offset == i)) [
      | inl e1 ↦
          let same_index : offset ≡ i = (==_iff offset i).0 e1 in
          let same : s ≡ t =
            some-inj (sym at ∙ subst (λ j. get_elem? e.states j ≡ some t) (sym same_index) at_i) in
          subst
            (λ j.
              (u : ShardState L) × (get_elem? (set e.states offset w.state) j ≡ some u)
              × Logged sip_hash now ops log (e.first_shard + j) t u)
            same_index
            (
              w.state,
              get_elem?-set_self e.states offset s w.state at,
              subst
                  (λ (u : ShardState L).
                    Logged sip_hash now ops log (e.first_shard + offset) u w.state)
                  same logged,
            )
      | inr e1 ↦
          let (sound, taking) = serve i t at_i in
          (
            t,
            get_elem?-set_ne e.states offset i w.state
                  (λ same. false≢true (sym e1 ∙ (==_iff offset i).1 same))
                ∙ at_i,
            rest-Logged sip_hash now ops log (e.first_shard + i) t sound,
          )
    ],
    λ i absent. get_elem?-set_absent e.states offset i w.state absent,
  )

  pub answer_at-AllLogged :
      (e : Executor L) (asked : Asked) (last : ℕ) (given : Reply × Bool) (e' : Executor L)
      → AllServe e
      → answer_at sip_hash latest ops policy limit acks now e asked last ≡ some (given, e')
      → AllLogged e e'
  unfolding answer_at
  answer_at-AllLogged e asked last given e' serve h =
      let offset = asked.shard - e.first_shard in
      elim (Bool-cases (ltb asked.shard e.first_shard)) [
        | inl below ↦ absurd (none≢some (rw (below, answer_at) at h))
        | inr within ↦ elim (Option-cases (get_elem? e.states offset)) [
          | inl beyond ↦ absurd (none≢some (rw (within, beyond, answer_at) at h))
          | inr (s, at) ↦
              let v : Serving L = record { state = s; moves = e.moves; mode = e.mode } in
              elim (Option-cases (
                answer sip_hash latest ops policy limit acks v asked.shard asked.cmd asked.used now
                  last asked.after)) [
                    | inl stuck ↦ absurd (none≢some (rw (within, at, stuck, answer_at) at h))
                    | inr ((r, b, w), done) ↦
                        let (sound, taking) = serve offset s at in
                        let found = rw (within, at, done, answer_at) at h in
                        let same : put_back sip_hash latest ops policy limit acks now e offset w
                            ≡ e' =
                          cc in
                        let shard_same : asked.shard ≡ e.first_shard + offset = ground arith in
                        subst (λ x. AllLogged e x) same
                          (put_back-AllLogged e offset s w serve at (
                            subst (λ n. Logged sip_hash now ops log n s w.state) shard_same
                              (answer-Logged sip_hash latest ops log policy limit acks now
                                asked.shard v asked.cmd asked.used last asked.after r b w sound
                                taking done)))
                  ]
        ]
      ]

  -- Where the shards of an executor have sound keyspaces and do not refuse, and the loop of
  -- `serve` goes through an envelope's commands without a panic, eviction included, no shard is
  -- added, and each shard's keyspace is sound again; what the effects in its new records make of
  -- the keys and values it held is what it holds; and the records are numbered from its position
  -- on without a gap.
  pub serve_all-AllLogged :
      (asked : List Asked) (e : Executor L) (last : ℕ) (given : List (Reply × Bool))
      (e' : Executor L)
      → AllServe e
      → serve_all sip_hash latest ops policy limit acks now asked e last ≡ some (given, e')
      → AllLogged e e'
  unfolding serve_all
  serve_all-AllLogged [] e last given e' serve h =
      let same : e ≡ e' = cc in
      subst (λ x. AllLogged e x) same
        (
          refl,
          λ i s at.
              let (sound, taking) = serve i s at in
              (s, at, rest-Logged sip_hash now ops log (e.first_shard + i) s sound),
          λ i at. at,
        )
  serve_all-AllLogged (asked ∷ rest) e last given e' serve h =
      elim (Option-cases (answer_at sip_hash latest ops policy limit acks now e asked last)) [
        | inl stuck ↦ absurd (none≢some (rw (stuck, serve_all) at h))
        | inr ((first, e1), done) ↦
            elim (Option-cases
              (serve_all sip_hash latest ops policy limit acks now rest e1 asked.after)) [
                | inl stuck ↦ absurd (none≢some (rw (done, stuck, serve_all) at h))
                | inr ((later, e2), served) ↦
                    let one = answer_at-AllLogged e asked last first e1 serve done in
                    let same : e2 ≡ e' = (let found = rw (done, served, serve_all) at h in cc) in
                    subst (λ x. AllLogged e x) same
                      (AllLogged-trans e e1 e2 one (
                        serve_all-AllLogged rest e1 asked.after later e2
                          (AllServe-after e e1 serve one) served))
              ]
      ]
