-- ===== src/Sweep/Expiry.antt =====
-- What an expiry sweep reports.
use mathlib.Core.Option
use seedstone.Base.{
  ℕ, zero, suc, ◌^◌, Bool-cases, length, length-replicate, one-le-two_pow, ◌≤◌, ◌<◌, ◌≡◌, refl, sym,
  ap, ◌∙◌, arith, ◌==◌, true, false, false≢true, Bytes, Option, none, some, List, [], ◌∷◌, ◌++◌,
  replicate, is_some, Option-cases, inl, inr, if◌then◌else◌, not, ◌&&◌,
}
use seedstone.Dict.{Dict, get}
use seedstone.Dict.Buckets.{Bucket, Entry, Slot}
use seedstone.Walk.{scan}
use seedstone.Walk.Cycle.{walk, go_on, Holds, walk_covers}
use seedstone.Walk.End.{Grows, walk_ends}
use seedstone.Walk.Expansion.{nonzero_test}
use seedstone.Dict.Found.{get-weigh}
use seedstone.Dict.Valid.{IsValid, dated_of}
use mathlib.Core.List.{Memᴰ}
use seedstone.Sweep.{ExpiryPolicy, deadlines, due_keys, sweep, expire_step, reached, with_dead}

due_keys-append :
    (expiry : ExpiryPolicy) (now : ℕ) (a b : Bucket)
    → due_keys expiry now (a ++ b) ≡ due_keys expiry now a ++ due_keys expiry now b
unfolding due_keys
due_keys-append expiry now [] b = refl
due_keys-append expiry now (slot ∷ a) b = ground (arith, due_keys-append expiry now a b)

abbrev pub report : ExpiryPolicy → ℕ → ℕ × Bucket → ℕ × List Bytes
report expiry now (next, visited) = (next, due_keys expiry now visited)

sweep-go_on :
    (expiry : ExpiryPolicy) (now next : ℕ) (visited : Bucket) (rest : Option (ℕ × Bucket))
    → (if next == 0
        then some (next, due_keys expiry now visited)
        else Option.map
            (with_dead (due_keys expiry now visited))
            (Option.map (report expiry now) rest))
      ≡ Option.map (report expiry now) (go_on (next, visited) rest)
unfolding go_on
sweep-go_on expiry now zero visited rest = refl
sweep-go_on expiry now (suc n) visited none = rw (nonzero_test (suc n) (omega arith)) refl
sweep-go_on expiry now (suc n) visited (some (last, more)) =
    rw (nonzero_test (suc n) (omega arith), due_keys-append expiry now visited more) refl

-- A sweep takes its budget of steps of a walk over the keyspace, and ends with the cycle.
sweep_lem :
    (budget : ℕ) (expiry : ExpiryPolicy) (now : ℕ) (d : Dict) (cursor : ℕ)
    → sweep budget expiry now d cursor
      ≡ Option.map (report expiry now) (walk (replicate budget d) cursor)
unfolding sweep walk
sweep_lem zero expiry now d cursor = unfold due_keys in refl
sweep_lem (suc budget) expiry now d cursor = elim (Option-cases (scan d cursor)) [
  | inl e ↦ rw (sweep, walk, e) refl
  | inr ((next, visited), e) ↦
      rw (sweep, walk, e, sweep_lem budget expiry now d next)
        (sweep-go_on expiry now next visited (walk (replicate budget d) next))
]

due_keys-Mem :
    (now : ℕ) (slot : Slot) (visited : Bucket)
    → Memᴰ slot visited
    → reached slot.entry.expires_at now ≡ true
    → Memᴰ slot.key (due_keys deadlines now visited)
unfolding due_keys
due_keys-Mem now slot [] m due = elim m [ ]
due_keys-Mem now slot (x ∷ rest) (Memᴰ.head e) due = rw (← e, due) (Memᴰ.head refl)
due_keys-Mem now slot (x ∷ rest) (Memᴰ.tail m) due =
    let later = due_keys-Mem now slot rest m due in
    elim (Bool-cases (reached x.entry.expires_at now)) [
      | inl e ↦ rw e (Memᴰ.tail later)
      | inr e ↦ rw e later
    ]

flag_up :
    (d : Dict) (cursor budget now : ℕ)
    → d.may_hold_deadlines ≡ true
    → expire_step d cursor budget now deadlines ≡ sweep budget deadlines now d cursor
unfolding expire_step
flag_up d cursor budget now on =
    ap (λ f. if not f && true then some (cursor, []) else sweep budget deadlines now d cursor) on

reached-dated : (t : Option ℕ) (now : ℕ) → reached t now ≡ true → is_some t ≡ true
unfolding reached
reached-dated none now h = absurd (false≢true h)
reached-dated (some t) now h = refl

module _ (sip_hash : ℕ → ℕ → Bytes → ℕ) where
  -- While the flag is down, no key of a sound keyspace has a deadline.
  pub undated_lem :
      (k : ℕ) (d : Dict) (key : Bytes) (x : Entry)
      → IsValid sip_hash k d
      → d.may_hold_deadlines ≡ false
      → get sip_hash d key ≡ some x
      → is_some x.expires_at ≡ false
  undated_lem k d key x valid off found =
      ground (arith, valid.flagged off, valid.dated, get-weigh sip_hash dated_of d key x found)

  module _ (d : Dict) (k : ℕ) (valid : IsValid sip_hash k d) (small : k < 64) where
    pub same-Grows : (n j : ℕ) → j ≤ k → Grows sip_hash k small j (replicate n d)
    same-Grows zero j h = tt
    same-Grows (suc n) j h = (k, h, omega arith, valid, same-Grows n k (omega arith))

    pub same-Holds :
        (key : Bytes) (P : Entry → Type 0) (x : Entry)
        → get sip_hash d key ≡ some x
        → P x
        → (n j : ℕ) → j ≤ k
        → Holds sip_hash d.seed key P j (replicate n d)
    same-Holds key P x found good zero j h = tt
    same-Holds key P x found good (suc n) j h = (
      k,
      h,
      small,
      valid,
      refl,
      (x, found, good),
      same-Holds key P x found good n k (omega arith),
    )

    -- In a sound keyspace of 2^k buckets, k below 64, a sweep from cursor 0 with a budget of 2^k
    -- steps comes back to 0, under the production policy, and reports every key whose deadline has
    -- been reached.
    pub expire_step-covers :
        (budget_buckets now : ℕ)
        → 2 ^ k ≤ budget_buckets
        → (key : Bytes) (x : Entry) → get sip_hash d key ≡ some x
        → reached x.expires_at now ≡ true
        → (dead : List Bytes) × (expire_step d 0 budget_buckets now deadlines ≡ some (0, dead))
          × Memᴰ key dead
    expire_step-covers budget now enough key x found due = elim (Bool-cases d.may_hold_deadlines) [
      | inr off ↦ absurd (
          false≢true
            (sym (undated_lem k d key x valid off found) ∙ reached-dated x.expires_at now due))
      | inl on ↦
          let calls = replicate budget d in
          let several : 1 ≤ length calls =
            omega (arith, enough, one-le-two_pow k, length-replicate budget d) in
          let (visited, ended) =
            walk_ends sip_hash k small calls (same-Grows budget 0 (omega arith))
              (omega (arith, enough, length-replicate budget d)) in
          let (y, good, seen) =
            walk_covers sip_hash d.seed key (λ e. e ≡ x) calls visited
              (λ empty. absurd (omega (arith, ap length empty)))
              (same-Holds key (λ e. e ≡ x) x found refl budget 0 (omega arith)) ended in
          (
            due_keys deadlines now visited,
            flag_up d 0 budget now on
                ∙ sweep_lem budget deadlines now d 0
                ∙ ap (Option.map (report deadlines now)) ended,
            due_keys-Mem now _ visited seen (rw good due),
          )
    ]
