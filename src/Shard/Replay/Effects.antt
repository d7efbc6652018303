-- ===== src/Shard/Replay/Effects.antt =====
-- What the loop of `replay_into` makes of a keyspace, against the map that the effects describe.
use mathlib.Core.Option
use seedstone.Base.{
  ℕ, ◌+◌, Bool, true, false, ◌&&◌, Bytes, bytes_eq, bytes_eq_iff, Option, none, some, is_some, List,
  [], ◌∷◌, ◌++◌, ◌≡◌, refl, ap, sym, subst, arith, some-inj, none≢some, Bool-cases, inl, inr,
  if◌then◌else◌,
}
use seedstone.Dict
use seedstone.Dict.{Dict}
use seedstone.Dict.Buckets.{Entry}
use seedstone.Dict.Growth.{IsSound}
use seedstone.Dict.Refines.{with_seed_lem, insert_lem, remove_lem, set_deadline_lem}
use seedstone.Dict.Run.{Content, content}
use seedstone.Log.Effect.{Effect}
use seedstone.Shard.Clock.{Now}
use seedstone.Shard.Logged.{Held, HeldMap, moved, effect_step, effect_run}
use seedstone.Shard.Replay.{Rebuilt, resolve, replay_effect, replay_records}
use seedstone.Shard.Replay.Due.{contains, contains-push}

pushed-contains :
    (b : Bool) (due : List Bytes) (k q : Bytes)
    → contains due q ≡ true
    → contains (if b then due ++ k ∷ [] else due) q ≡ true
pushed-contains true due k q h = rw (contains-push due k q, h)
pushed-contains false due k q h = h

pushed-contains_self :
    (b : Bool) (due : List Bytes) (k q : Bytes)
    → b ≡ true
    → bytes_eq k q ≡ true
    → contains (if b then due ++ k ∷ [] else due) q ≡ true
pushed-contains_self true due k q h e = rw (contains-push due k q, e) (ground arith)
pushed-contains_self false due k q h e = cc

abbrev pub entries_of : List (ℕ × Effect) → List Effect
entries_of [] = []
entries_of ((position, e) ∷ rest) = e ∷ entries_of rest

module _ (sip_hash : ℕ → ℕ → Bytes → ℕ) (latest : ℕ) (now : Now) where
  abbrev pub millis_at : Option ℕ → Option ℕ
  millis_at due = (resolve sip_hash latest now due).0

  abbrev pub has_passed : Option ℕ → Bool
  has_passed due = (resolve sip_hash latest now due).1

  abbrev pub revived : Held → Content
  revived h = record { value = h.value; expires_at = millis_at h.deadline }

  -- The keyspace in the middle of the loop, with the keys listed as due.
  pub record Mirrors (d : Dict) (due : List Bytes) (m : HeldMap) : Type 0 where
    pub sound : IsSound sip_hash d
    pub same : (q : Bytes) → Option.map content (Dict.get sip_hash d q) ≡ Option.map revived (m q)
    pub listed :
        (q : Bytes) (h : Held) → m q ≡ some h → has_passed h.deadline ≡ true → contains due q ≡ true

  put-Mirrors :
      (k v : Bytes) (millis : Option ℕ) (d : Dict) (due : List Bytes) (m : HeldMap)
      → Mirrors d due m
      → let (d', due') = replay_effect sip_hash latest now (Effect.put k v millis) d due in
        Mirrors d' due' (effect_step m (Effect.put k v millis))
  unfolding replay_effect
  put-Mirrors k v millis d due m h =
      let (sound', answers) =
        insert_lem sip_hash d k (record { value = v; expires_at = millis_at millis; touched = 0 })
          h.sound in
      record {
        sound = sound';
        same = λ q. elim (Bool-cases (bytes_eq k q)) [
          | inl e ↦ rw (answers q, e)
          | inr e ↦ rw (answers q, e) (h.same q)
        ];
        listed = λ q x found passed. elim (Bool-cases (bytes_eq k q)) [
          | inl e ↦
              let same_entry : some (record { value = v; deadline = millis }) ≡ some x =
                rw e at found in
              let now_due : has_passed millis ≡ true =
                subst (λ (o : Held). has_passed o.deadline ≡ true) (sym (some-inj same_entry))
                  passed in
              pushed-contains_self (has_passed millis) due k q now_due e
          | inr e ↦
              pushed-contains (has_passed millis) due k q (h.listed q x (rw e at found) passed)
        ];
      }

  del-Mirrors :
      (k : Bytes) (d : Dict) (due : List Bytes) (m : HeldMap)
      → Mirrors d due m
      → Mirrors (Dict.remove sip_hash d k).1 due (effect_step m (Effect.del k))
  del-Mirrors k d due m h =
      let (sound', returned, answers) = remove_lem sip_hash d k h.sound in
      record {
        sound = sound';
        same = λ q. elim (Bool-cases (bytes_eq k q)) [
          | inl e ↦ rw (answers q, e)
          | inr e ↦ rw (answers q, e) (h.same q)
        ];
        listed = λ q x found passed. elim (Bool-cases (bytes_eq k q)) [
          | inl e ↦ absurd (none≢some (rw e at found))
          | inr e ↦ h.listed q x (rw e at found) passed
        ];
      }

  moved-content :
      (millis : Option ℕ) (o : Option Entry) (p : Option Held)
      → Option.map content o ≡ Option.map revived p
      → Option.map content
          (Option.map (λ (e : Entry). record e { expires_at = millis_at millis }) o)
        ≡ Option.map revived (Option.map (moved millis) p)
  moved-content millis none none same = refl
  moved-content millis none (some x) same = cc
  moved-content millis (some e) none same = cc
  moved-content millis (some e) (some x) same =
      let value : e.value ≡ x.value =
        ap (λ (c : Content). c.value) (some-inj {a = content e} {b = revived x} same) in
      rw value

  there-lem :
      (o : Option Entry) (p : Option Held) (f : Held → Held) (x : Held)
      → Option.map content o ≡ Option.map revived p
      → Option.map f p ≡ some x
      → is_some o ≡ true
  there-lem o none f x same found = absurd (none≢some found)
  there-lem none (some y) f x same found = cc
  there-lem (some e) (some y) f x same found = refl

  moved-deadline :
      (millis : Option ℕ) (p : Option Held) (x : Held)
      → Option.map (moved millis) p ≡ some x
      → x.deadline ≡ millis
  moved-deadline millis none x found = absurd (none≢some found)
  moved-deadline millis (some y) x found = cc

  deadline-Mirrors :
      (k : Bytes) (millis : Option ℕ) (d : Dict) (due : List Bytes) (m : HeldMap)
      → Mirrors d due m
      → let (d', due') = replay_effect sip_hash latest now (Effect.deadline k millis) d due in
        Mirrors d' due' (effect_step m (Effect.deadline k millis))
  unfolding replay_effect
  deadline-Mirrors k millis d due m h =
      let (sound', there, answers) = set_deadline_lem sip_hash d k (millis_at millis) h.sound in
      let pushed = (Dict.set_deadline sip_hash d k (millis_at millis)).0 && has_passed millis in
      record {
        sound = sound';
        same = λ q. elim (Bool-cases (bytes_eq k q)) [
          | inl e ↦
              rw (answers q, e) (moved-content millis (Dict.get sip_hash d q) (m q) (h.same q))
          | inr e ↦ rw (answers q, e) (h.same q)
        ];
        listed = λ q x found passed. elim (Bool-cases (bytes_eq k q)) [
          | inl e ↦
              let moved_entry : Option.map (moved millis) (m q) ≡ some x = rw e at found in
              let here : is_some (Dict.get sip_hash d k) ≡ true =
                subst (λ j. is_some (Dict.get sip_hash d j) ≡ true) (sym ((bytes_eq_iff k q).0 e))
                  (there-lem (Dict.get sip_hash d q) (m q) (moved millis) x (h.same q)
                    moved_entry) in
              let now_due : has_passed millis ≡ true =
                subst (λ t. has_passed t ≡ true) (moved-deadline millis (m q) x moved_entry)
                  passed in
              pushed-contains_self pushed due k q (rw (there, here, now_due)) e
          | inr e ↦ pushed-contains pushed due k q (h.listed q x (rw e at found) passed)
        ];
      }

  flush-Mirrors :
      (d : Dict) (due : List Bytes) (m : HeldMap)
      → Mirrors (Dict.clear d) due (effect_step m Effect.flush)
  unfolding Dict.clear
  flush-Mirrors d due m =
      let (sound', answers) = with_seed_lem sip_hash d.seed in
      record {
        sound = sound';
        same = λ q. ap (Option.map content) (answers q);
        listed = λ q x found passed. absurd (none≢some found);
      }

  replay_effect-Mirrors :
      (e : Effect) (d : Dict) (due : List Bytes) (m : HeldMap)
      → Mirrors d due m
      → let (d', due') = replay_effect sip_hash latest now e d due in
        Mirrors d' due' (effect_step m e)
  unfolding replay_effect
  replay_effect-Mirrors (Effect.put k v millis) d due m h = put-Mirrors k v millis d due m h
  replay_effect-Mirrors (Effect.del k) d due m h = del-Mirrors k d due m h
  replay_effect-Mirrors (Effect.deadline k millis) d due m h = deadline-Mirrors k millis d due m h
  replay_effect-Mirrors Effect.flush d due m h = flush-Mirrors d due m
  replay_effect-Mirrors Effect.rebase d due m h = h

  pub replay_records-Mirrors :
      (records : List (ℕ × Effect)) (b : Rebuilt) (m : HeldMap)
      → Mirrors b.dict b.due m
      → let b' = replay_records sip_hash latest now records b in
        Mirrors b'.dict b'.due (effect_run m (entries_of records))
  unfolding replay_records
  replay_records-Mirrors [] b m h = h
  replay_records-Mirrors ((position, e) ∷ rest) b m h =
      let (d, due) = replay_effect sip_hash latest now e b.dict b.due in
      replay_records-Mirrors rest (record { dict = d; seq = position + 1; due = due })
        (effect_step m e) (replay_effect-Mirrors e b.dict b.due m h)
