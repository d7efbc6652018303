-- ===== src/Shard/Meaning/Keyspace.antt =====
-- The changes that handlers make of one key of a keyspace, and what lazy expiry takes.
use mathlib.Core.Option
use seedstone.Base.{
  ℕ, Bytes, bytes_eq, bytes_eq_iff, Option, none, some, ◌≡◌, refl, sym, ◌∙◌, ap, subst, Bool, true,
  false, not, ◌&&◌, Bool-cases, inl, inr, is_some, if◌then◌else◌,
}
use seedstone.Dict
use seedstone.Dict.{Dict}
use seedstone.Dict.Buckets.{Entry}
use seedstone.Dict.Growth.{IsSound}
use seedstone.Dict.Run.{Content, content, view}
use seedstone.Dict.Refines.{insert_lem, remove_lem, set_deadline_lem, touch_lem}
use seedstone.Sweep.{reached, deadlines}
use seedstone.Sweep.Expiry.{undated_lem}
use seedstone.Shard.Handlers.{stored, is_due}
use seedstone.Shard.Meaning.{alive, holding}

reached_undated : (due : Option ℕ) (now : ℕ) → is_some due ≡ false → reached due now ≡ false
unfolding reached
reached_undated none now h = refl
reached_undated (some due) now h = cc

alive-content :
    (now : ℕ) (flag : Bool) (o : Option Entry)
    → ((x : Entry) → flag ≡ false → o ≡ some x → is_some x.expires_at ≡ false)
    → alive now (Option.map content o) ≡ (
        if (if not flag && true
          then false
          else elim o [ none ↦ false | some entry ↦ reached entry.expires_at now ])
        then none
        else Option.map content o)
alive-content now true none undated = refl
alive-content now true (some x) undated = refl
alive-content now false none undated = refl
alive-content now false (some x) undated =
    rw (reached_undated x.expires_at now (undated x refl refl))

module _ (sip_hash : ℕ → ℕ → Bytes → ℕ) where
  -- The keyspace after a change of what one key holds.
  abbrev pub Becomes : Dict → Bytes → Option Content → Dict → Type 0
  Becomes d k c d' =
      IsSound sip_hash d'
      × ((q : Bytes) → view sip_hash d' q ≡ (if bytes_eq k q then c else view sip_hash d q))

  pub same-Becomes :
      (d d' : Dict) (k : Bytes)
      → IsSound sip_hash d'
      → ((q : Bytes) → view sip_hash d' q ≡ view sip_hash d q)
      → Becomes d k (view sip_hash d k) d'
  same-Becomes d d' k sound same = (
    sound,
    λ q. elim (Bool-cases (bytes_eq k q)) [
      | inl e ↦ rw e (same q ∙ ap (view sip_hash d) (sym ((bytes_eq_iff k q).0 e)))
      | inr e ↦ rw e (same q)
    ],
  )

  pub remove-Becomes :
      (d : Dict) (k : Bytes) → IsSound sip_hash d → Becomes d k none (Dict.remove sip_hash d k).1
  remove-Becomes d k sound =
      let (sound', returned, answers) = remove_lem sip_hash d k sound in
      (
        sound',
        λ q. elim (Bool-cases (bytes_eq k q)) [
          | inl e ↦ rw (answers q, e)
          | inr e ↦ rw (answers q, e)
        ],
      )

  stamped-content :
      (stamp : ℕ) (o : Option Entry)
      → Option.map content (Option.map (λ (e : Entry). record e { touched = stamp }) o)
        ≡ Option.map content o
  stamped-content stamp none = refl
  stamped-content stamp (some e) = refl

  pub touch-view :
      (d : Dict) (k : Bytes)
      → IsSound sip_hash d
      → IsSound sip_hash (Dict.touch sip_hash d k)
        × ((q : Bytes) → view sip_hash (Dict.touch sip_hash d k) q ≡ view sip_hash d q)
  touch-view d k sound =
      let (sound', answers) = touch_lem sip_hash d k sound in
      (
        sound',
        λ q. elim (Bool-cases (bytes_eq k q)) [
          | inl e ↦ rw (answers q, e) (stamped-content _ (Dict.get sip_hash d q))
          | inr e ↦ rw (answers q, e)
        ],
      )

  pub stored-Becomes :
      (d : Dict) (k v : Bytes) (due : Option ℕ)
      → IsSound sip_hash d
      → Becomes d k (holding v due) (stored sip_hash d k v due)
  unfolding stored
  stored-Becomes d k v due sound =
      let entry : Entry = record { value = v; expires_at = due; touched = 0 } in
      let (inserted, answers) = insert_lem sip_hash d k entry sound in
      let (sound', same) = touch-view (Dict.insert sip_hash d k entry) k inserted in
      (
        sound',
        λ q. elim (Bool-cases (bytes_eq k q)) [
          | inl e ↦ rw (same q, answers q, e)
          | inr e ↦ rw (same q, answers q, e)
        ],
      )

  pub deadline-Becomes :
      (d : Dict) (k : Bytes) (due : Option ℕ) (x : Entry)
      → IsSound sip_hash d
      → Dict.get sip_hash d k ≡ some x
      → Becomes d k (holding x.value due) (Dict.set_deadline sip_hash d k due).1
  deadline-Becomes d k due x sound found =
      let (sound', there, answers) = set_deadline_lem sip_hash d k due sound in
      (
        sound',
        λ q. elim (Bool-cases (bytes_eq k q)) [
          | inl e ↦
              let here : Dict.get sip_hash d q ≡ some x =
                subst (λ j. Dict.get sip_hash d j ≡ some x) ((bytes_eq_iff k q).0 e) found in
              rw (answers q, e, here)
          | inr e ↦ rw (answers q, e)
        ],
      )

  -- Lazy expiry takes the key whose deadline has come, and no other.
  pub alive-view :
      (d : Dict) (k : Bytes) (now : ℕ)
      → IsSound sip_hash d
      → alive now (view sip_hash d k)
        ≡ (if is_due sip_hash d k now deadlines then none else view sip_hash d k)
  unfolding is_due
  alive-view d k now (width, valid) =
      alive-content now d.may_hold_deadlines (Dict.get sip_hash d k)
        (λ x off found. undated_lem sip_hash width d k x valid off found)
