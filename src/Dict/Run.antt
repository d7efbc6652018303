-- ===== src/Dict/Run.antt =====
-- Any sequence of writes to a keyspace of dict.rs against the same writes to a finite map.
use seedstone.Base.{
  ℕ, ◌+◌, ◌%◌, ◌^◌, ◌≡◌, refl, ◌∙◌, ap, Bool, Bytes, bytes_eq, some, none, Option, if◌then◌else◌,
  true, false, List, [], ◌∷◌,
}
use mathlib.Core.Option
use mathlib.Core.Path.{fun_ext}
use seedstone.Dict
use seedstone.Dict.{Dict, with_seed, get, rehash_step}
use seedstone.Dict.Buckets.{Entry}
use seedstone.Dict.Growth.{IsSound}
use seedstone.Dict.Step.{rehash_step-Same}
use seedstone.Dict.Refines.{with_seed_lem, insert_lem, remove_lem, set_deadline_lem, touch_lem}

pub data Write : Type 0 where
  insert : Bytes → Entry → Write
  remove : Bytes → Write
  set_deadline : Bytes → Option ℕ → Write
  touch : Bytes → Write
  rehash : ℕ → Write
  clear : Write

-- What a client can see of an entry: its value and its deadline. The stamp that `touch` leaves
-- serves the choice of an eviction victim alone.
pub record Content : Type 0 where
  pub value : Bytes
  pub expires_at : Option ℕ

abbrev pub content : Entry → Content
content e = record { value = e.value; expires_at = e.expires_at }

abbrev pub FiniteMap : Type 0
FiniteMap = Bytes → Option Content

abbrev pub map_step : FiniteMap → Write → FiniteMap
map_step m (insert key entry) q = if bytes_eq key q then some (content entry) else m q
map_step m (remove key) q = if bytes_eq key q then none else m q
map_step m (set_deadline key t) q =
    if bytes_eq key q then Option.map (λ (c : Content). record c { expires_at = t }) (m q) else m q
map_step m (touch key) q = m q
map_step m (rehash buckets) q = m q
map_step m clear q = none

abbrev pub map_run : FiniteMap → List Write → FiniteMap
map_run m [] = m
map_run m (w ∷ ws) = map_run (map_step m w) ws

content-deadline :
    (same : Bool) (t : Option ℕ) (o : Option Entry)
    → Option.map content
        (if same then Option.map (λ (e : Entry). record e { expires_at = t }) o else o)
      ≡ (if same
          then Option.map (λ (c : Content). record c { expires_at = t }) (Option.map content o)
          else Option.map content o)
content-deadline true t none = refl
content-deadline true t (some e) = refl
content-deadline false t o = refl

content-if :
    (same : Bool) (after before : Option Entry)
    → Option.map content (if same then after else before)
      ≡ (if same then Option.map content after else Option.map content before)
content-if true after before = refl
content-if false after before = refl

content-touch :
    (same : Bool) (stamp : ℕ) (o : Option Entry)
    → Option.map content
        (if same then Option.map (λ (e : Entry). record e { touched = stamp }) o else o)
      ≡ Option.map content o
content-touch true stamp none = refl
content-touch true stamp (some e) = refl
content-touch false stamp o = refl

module _ (sip_hash : ℕ → ℕ → Bytes → ℕ) where
  unfoldable pub step : Dict → Write → Dict
  step d (insert key entry) = Dict.insert sip_hash d key entry
  step d (remove key) = (Dict.remove sip_hash d key).1
  step d (set_deadline key t) = (Dict.set_deadline sip_hash d key t).1
  step d (touch key) = Dict.touch sip_hash d key
  step d (rehash buckets) = rehash_step buckets d
  step d clear = Dict.clear d

  unfoldable pub run : Dict → List Write → Dict
  run d [] = d
  run d (w ∷ ws) = run (step d w) ws

  abbrev pub view : Dict → FiniteMap
  view d q = Option.map content (get sip_hash d q)

  step_lem :
      (d : Dict) (w : Write)
      → IsSound sip_hash d
      → IsSound sip_hash (step d w) × ((q : Bytes) → view (step d w) q ≡ map_step (view d) w q)
  unfolding step Dict.clear
  step_lem d (insert key entry) sound =
      let (sound', answers) = insert_lem sip_hash d key entry sound in
      (sound', λ q. rw (answers q) (content-if (bytes_eq key q) (some entry) (get sip_hash d q)))
  step_lem d (remove key) sound =
      let (sound', returned, answers) = remove_lem sip_hash d key sound in
      (sound', λ q. rw (answers q) (content-if (bytes_eq key q) none (get sip_hash d q)))
  step_lem d (set_deadline key t) sound =
      let (sound', there, answers) = set_deadline_lem sip_hash d key t sound in
      (sound', λ q. rw (answers q) (content-deadline (bytes_eq key q) t (get sip_hash d q)))
  step_lem d (touch key) sound =
      let (sound', answers) = touch_lem sip_hash d key sound in
      (
        sound',
        λ q.
            rw (answers q)
              (content-touch (bytes_eq key q) ((d.clock + 1) % 2 ^ 32) (get sip_hash d q)),
      )
  step_lem d (rehash buckets) sound =
      let same = rehash_step-Same sip_hash buckets d sound in
      (same.sound, λ q. ap (Option.map content) (same.answers q))
  step_lem d clear sound =
      let (sound', answers) = with_seed_lem sip_hash d.seed in
      (sound', λ q. ap (Option.map content) (answers q))

  -- From a sound keyspace, after any writes, the keyspace is sound, and `get` shows under each key
  -- what the finite map holds there after the same writes.
  pub run_refines :
      (d : Dict) (ws : List Write)
      → IsSound sip_hash d
      → IsSound sip_hash (run d ws) × (view (run d ws) ≡ map_run (view d) ws)
  unfolding run
  run_refines d [] sound = (sound, refl)
  run_refines d (w ∷ ws) sound =
      let (sound', views) = step_lem d w sound in
      let (last, runs) = run_refines (step d w) ws sound' in
      (last, runs ∙ ap (λ m. map_run m ws) (fun_ext views))
