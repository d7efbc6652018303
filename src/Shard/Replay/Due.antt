-- ===== src/Shard/Replay/Due.antt =====
-- The last loop of `replay_into`: the keys whose last word is a deadline that has passed.
use seedstone.Base.{
  subst, ℕ, Bool, true, false, ◌&&◌, ◌||◌, Bytes, bytes_eq, bytes_eq_iff, Option, none, List, [],
  ◌∷◌, ◌++◌, ◌≡◌, refl, ◌∙◌, Bool-cases, inl, inr, if◌then◌else◌,
}
use seedstone.Dict
use seedstone.Dict.{Dict}
use seedstone.Dict.Buckets.{Entry}
use seedstone.Dict.Growth.{IsSound}
use seedstone.Dict.Refines.{remove_lem}
use seedstone.Shard.Clock.{Now}
use seedstone.Shard.Replay.{is_dead, remove_due}

abbrev pub contains : List Bytes → Bytes → Bool
contains [] q = false
contains (k ∷ ks) q = bytes_eq k q || contains ks q

pub contains-push :
    (ks : List Bytes) (k q : Bytes) → contains (ks ++ k ∷ []) q ≡ (contains ks q || bytes_eq k q)
contains-push [] k q = elim (Bool-cases (bytes_eq k q)) [ inl e ↦ rw e | inr e ↦ rw e ]
contains-push (j ∷ ks) k q = elim (Bool-cases (bytes_eq j q)) [
  | inl e ↦ rw e
  | inr e ↦ rw e (contains-push ks k q)
]

module _ (sip_hash : ℕ → ℕ → Bytes → ℕ) (now : Now) where
  abbrev pub kept : Bool → Option Entry → Option Entry
  kept listed o = if listed && is_dead now o then none else o

  kept-none : (listed : Bool) → kept listed none ≡ none
  unfolding is_dead
  kept-none true = refl
  kept-none false = refl

  kept-alive : (listed : Bool) (o : Option Entry) → (if listed && false then none else o) ≡ o
  kept-alive true o = refl
  kept-alive false o = refl

  -- Of the keys listed those are removed, and no other, whose deadline is not in the future.
  pub remove_due_lem :
      (due : List Bytes) (d : Dict)
      → IsSound sip_hash d
      → IsSound sip_hash (remove_due sip_hash now due d)
        × ((q : Bytes)
            → Dict.get sip_hash (remove_due sip_hash now due d) q
              ≡ kept (contains due q) (Dict.get sip_hash d q))
  unfolding remove_due
  remove_due_lem [] d sound = (sound, λ q. refl)
  remove_due_lem (k ∷ rest) d sound =
      let (removed_sound, returned, removed) = remove_lem sip_hash d k sound in
      elim (Bool-cases (is_dead now (Dict.get sip_hash d k))) [
        | inl dead ↦
            let (sound', answers) =
              remove_due_lem rest (Dict.remove sip_hash d k).1 removed_sound in
            rw dead (
              sound',
              λ q. answers q ∙ (elim (Bool-cases (bytes_eq k q)) [
                | inl same ↦
                    let dead_q =
                      subst (λ j. is_dead now (Dict.get sip_hash d j) ≡ true)
                        ((bytes_eq_iff k q).0 same) dead in
                    rw (removed q, same, dead_q) (kept-none (contains rest q))
                | inr other ↦ rw (removed q, other)
              ]),
            )
        | inr alive ↦
            let (sound', answers) = remove_due_lem rest d sound in
            rw alive (
              sound',
              λ q. answers q ∙ (elim (Bool-cases (bytes_eq k q)) [
                | inl same ↦
                    let alive_q =
                      subst (λ j. is_dead now (Dict.get sip_hash d j) ≡ false)
                        ((bytes_eq_iff k q).0 same) alive in
                    rw (same, alive_q) (kept-alive (contains rest q) (Dict.get sip_hash d q))
                | inr other ↦ rw other
              ]),
            )
      ]
