-- ===== src/Resp/Held.antt =====
-- What the decoder of lib.rs holds in memory while it fills arrays: an exact account, within the
-- limits.
use seedstone.Base.{
  ℕ, suc, ◌+◌, ◌-◌, ◌^◌, ◌≤◌, ◌<◌, ◌≡◌, refl, ap, none, some, List, [], ◌∷◌, ◌++◌, length, arith,
  ok, err, Option-cases, inl, inr, length-append,
}
use seedstone.Resp.{Frame, array, frames_of, list_of}
use seedstone.Resp.Decoder.{
  Decoding, DecoderLimits, PendingArray, max_array_len, max_array_depth, saturating_add, headroom,
}
use seedstone.Resp.Machine.{Placed, pop_filled, add_to, cost_of, settle}
use seedstone.Resp.Sendable.{Sendable, SendableAll, inner, costs, whole_cost}
use seedstone.Resp.Termination.{charge-cases}

-- The cost of the elements that the pending arrays hold.
unfoldable pub held : ℕ → List PendingArray → ℕ
unfolding costs frames_of
held unit [] = 0
held unit (top ∷ below) = costs unit (frames_of top.elements) + held unit below

-- Each pending array lacks an element and keeps the ceilings, as do the elements that it has.
unfoldable pub StackIsSound : List PendingArray → Type 0
unfolding SendableAll frames_of
StackIsSound [] = Unit {0}
StackIsSound (top ∷ below) =
    (1 ≤ top.remaining)
    × (length top.elements + top.remaining ≤ max_array_len)
    × SendableAll (suc (length below)) (frames_of top.elements)
    × (length below < max_array_depth)
    × StackIsSound below

frames_of-All :
    (depth : ℕ) (l : List Frame) (f : Frame)
    → SendableAll depth (frames_of l)
    → Sendable depth f
    → SendableAll depth (frames_of (l ++ (f ∷ [])))
unfolding SendableAll frames_of
frames_of-All depth [] f all h = (h, tt)
frames_of-All depth (g ∷ l) f (k, all) h = (k, frames_of-All depth l f all h)

costs-append :
    (unit : ℕ) (l : List Frame) (f : Frame)
    → costs unit (frames_of (l ++ (f ∷ []))) ≡ costs unit (frames_of l) + whole_cost unit f
unfolding costs frames_of
costs-append unit [] f = omega arith
costs-append unit (g ∷ l) f = omega (arith, costs-append unit l f)

list_of-frames_of : (l : List Frame) → list_of (frames_of l) ≡ l
unfolding list_of frames_of
list_of-frames_of [] = refl
list_of-frames_of (f ∷ l) = ap (λ r. f ∷ r) (list_of-frames_of l)

pop_filled-none : (top : PendingArray) → pop_filled top ≡ none → 1 ≤ top.remaining
pop_filled-none top h = ground arith

pop_filled-some :
    (top : PendingArray) (f : Frame)
    → pop_filled top ≡ some f
    → (top.remaining ≡ 0) × (f ≡ array (frames_of top.elements))
pop_filled-some top f h = ground arith

module _ (size_of_frame : ℕ) (limits : DecoderLimits) where
  -- The account is exact, and within the limit.
  abbrev pub IsSound : Decoding → Type 0
  IsSound s =
      StackIsSound s.stack
      × (s.in_memory ≡ held size_of_frame s.stack)
      × (s.in_memory ≤ limits.max_in_memory)

  abbrev pub Same : Decoding → Decoding → Type 0
  Same s s' = (s'.frame_start ≡ s.frame_start) × (s'.scan ≡ s.scan) × (s'.partial ≡ s.partial)

  -- What `place` may return.
  abbrev pub Settled : Decoding → Placed → Type 0
  Settled s (ok none, s') = IsSound s' × Same s s'
  Settled s (ok (some f), s') =
      Sendable 0 f
      × (whole_cost size_of_frame f ≤ limits.max_in_memory)
      × IsSound s'
      × (s'.stack ≡ [])
      × Same s s'
  Settled s (err e, s') = Unit {0}

  pub settle-Settled :
      (f : Frame) (stack : List PendingArray) (s : Decoding)
      → limits.max_in_memory < 2 ^ 64 - 1
      → Sendable (length stack) f
      → StackIsSound stack
      → s.stack ≡ stack
      → s.in_memory ≡ inner size_of_frame f + held size_of_frame stack
      → s.in_memory ≤ limits.max_in_memory
      → Settled s (settle size_of_frame f stack s limits)
  unfolding settle StackIsSound held headroom cost_of saturating_add Sendable inner
  settle-Settled f [] s small h sound k m within = elim (charge-cases size_of_frame limits s f) [
    | inl (e, r) ↦ rw (settle, r) tt
    | inr (rich, r) ↦
        rw (settle, r) (h, omega arith, (rw k tt, rw k refl, omega arith), k, (refl, refl, refl))
  ]
  settle-Settled f (top ∷ below) s small h (short, long, all, deep, sound) k m within =
      elim (charge-cases size_of_frame limits s f) [
        | inl (e, r) ↦ rw (settle, r) tt
        | inr (rich, r) ↦
            let kept = frames_of-All (suc (length below)) top.elements f all h in
            let count = length-append top.elements (f ∷ []) in
            let total = costs-append size_of_frame top.elements f in
            elim (Option-cases (pop_filled (add_to top f))) [
              | inl waits ↦
                  rw (settle, r, waits)
                    (
                      (
                        (pop_filled-none (add_to top f) waits, omega arith, kept, deep, sound),
                        omega arith,
                        omega arith,
                      ),
                      (refl, refl, refl),
                    )
              | inr (filled, popped) ↦
                  let (last, same) = pop_filled-some (add_to top f) filled popped in
                  let elements = top.elements ++ (f ∷ []) in
                  let many : length (list_of (frames_of elements)) ≤ max_array_len =
                    omega (arith, ap length (list_of-frames_of elements)) in
                  let paid = saturating_add s.in_memory (cost_of size_of_frame f) in
                  rw (settle, r, popped, same)
                    (settle-Settled (array (frames_of elements)) below
                      (record s { in_memory = paid; stack = below }) small (deep, many, kept) sound
                      refl (omega arith) (omega arith))
            ]
      ]
