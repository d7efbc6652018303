-- ===== src/Resp/Termination.antt =====
-- The loop of `step` in lib.rs ends, on as much fuel as there are bytes and one.
use seedstone.Base.{
  ℕ, zero, suc, ◌-◌, ◌≤◌, ◌<◌, ◌≡◌, refl, Option, none, some, Bytes, Result, List, [], ◌∷◌, length,
  arith, ok, err, ◌⊎◌, ltb, Bool-cases, Option-cases, inl, inr,
}
use seedstone.Resp.{Frame}
use seedstone.Resp.Field.{ParseError, memory_exceeded}
use seedstone.Resp.Decoder.{
  Decoding, DecoderLimits, default_limits, new_decoding, PendingArray, Element, value, array_header,
  afford, headroom, saturating_add, finish_frame,
}
use seedstone.Resp.Reader.{Read, read_element}
use seedstone.Resp.Machine.{
  Placed, pop_filled, add_to, charge, cost_of, settle, place, delivered, ran_out, step, enough,
  parse, with_scan, Decoder, try_next, next_of, compact,
}
use seedstone.Resp.Rounds.{continue, round}
use seedstone.Resp.Progress.{Forward, read_element-Forward}

module _ (size_of_frame : ℕ) (limits : DecoderLimits) where
  pub charge-cases :
      (s : Decoding) (f : Frame)
      → ((e : ParseError) × (charge size_of_frame s f limits ≡ err e))
        ⊎ ((cost_of size_of_frame f ≤ headroom s limits)
            × (charge size_of_frame s f limits
                ≡ ok (record s {
                  in_memory = saturating_add s.in_memory (cost_of size_of_frame f);
                })))
  unfolding charge afford
  charge-cases s f = elim (Bool-cases (ltb (headroom s limits) (cost_of size_of_frame f))) [
    | inl poor ↦ inl (
      memory_exceeded limits.max_in_memory,
      rw (charge, afford, headroom, saturating_add, poor) refl,
    )
    | inr rich ↦ inr (ground arith, rw (charge, afford, headroom, saturating_add, rich) refl)
  ]

  settle-scan :
      (f : Frame) (stack : List PendingArray) (s : Decoding)
      → (settle size_of_frame f stack s limits).1.scan ≡ s.scan
  unfolding settle
  settle-scan f [] s = elim (charge-cases s f) [
    | inl (e, r) ↦ rw (settle, r) refl
    | inr (rich, r) ↦ rw (settle, r) refl
  ]
  settle-scan f (top ∷ below) s = elim (charge-cases s f) [
    | inl (e, r) ↦ rw (settle, r) refl
    | inr (rich, r) ↦ elim (Option-cases (pop_filled (add_to top f))) [
      | inl kept ↦ rw (settle, r, kept) refl
      | inr (filled, popped) ↦
          let paid = saturating_add s.in_memory (cost_of size_of_frame f) in
          rw (settle, r, popped)
            (settle-scan filled below (record s { in_memory = paid; stack = below }))
    ]
  ]

  place-scan :
      (element : Element) (s : Decoding) → (place size_of_frame element s limits).1.scan ≡ s.scan
  unfolding place
  place-scan (value f) s = settle-scan f s.stack s
  place-scan (array_header count) s =
      let pushed : PendingArray = record { remaining = count; elements = [] } in
      elim (Option-cases (pop_filled pushed)) [
        | inl kept ↦ rw (place, kept) refl
        | inr (filled, popped) ↦ rw (place, popped) (settle-scan filled s.stack s)
      ]

  -- The loop returns on this fuel.
  abbrev Returns : ℕ → Bytes → Decoding → Type 0
  Returns fuel buf s = (r : Placed) × (step size_of_frame fuel buf s limits ≡ some r)

  continue-Returns :
      (fuel : ℕ) (buf : Bytes) (r : Placed)
      → Returns fuel buf r.1
      → (r' : Placed) × (continue size_of_frame limits fuel buf r ≡ some r')
  continue-Returns fuel buf (err e, s) more = ((err e, s), refl)
  continue-Returns fuel buf (ok none, s) more = more
  continue-Returns fuel buf (ok (some frame), s) more =
      (delivered size_of_frame frame s limits, refl)

  round-Returns :
      (from fuel : ℕ) (buf : Bytes) (r : Read)
      → Forward from buf r
      → ((s : Decoding) → from < s.scan → s.scan ≤ length buf → Returns fuel buf s)
      → (r' : Placed) × (round size_of_frame limits fuel buf r ≡ some r')
  round-Returns from fuel buf (err e, s) h more = ((err e, s), refl)
  round-Returns from fuel buf (ok none, s) h more = (ran_out size_of_frame buf s limits, refl)
  round-Returns from fuel buf (ok (some element), s) (h, k) more =
      let placed = place size_of_frame element s limits in
      let same = place-scan element s in
      continue-Returns fuel buf placed (more placed.1 (omega arith) (omega arith))

  step-Returns :
      (fuel : ℕ) (buf : Bytes) (s : Decoding) → length buf - s.scan < fuel → Returns fuel buf s
  unfolding step
  step-Returns zero buf s h = absurd (omega arith)
  step-Returns (suc fuel) buf s h =
      round-Returns s.scan fuel buf (read_element size_of_frame buf s limits)
        (read_element-Forward size_of_frame buf s limits)
        (λ s' further within. step-Returns fuel buf s' (omega arith))

module _ (size_of_frame : ℕ) where
  with_scan-returns :
      (r : Placed) → (r' : Result (Option (Frame × ℕ)) ParseError) × (with_scan (some r) ≡ some r')
  with_scan-returns (err e, s) = (err e, refl)
  with_scan-returns (ok none, s) = (ok none, refl)
  with_scan-returns (ok (some frame), s) = (ok (some (frame, s.scan)), refl)

  next_of-returns :
      (d : Decoder) (r : Placed)
      → (r' : Result (Option Frame) ParseError) × (d' : Decoder) × (next_of size_of_frame d (some r)
          ≡ some (r', d'))
  unfolding next_of
  next_of-returns d (err e, s) = (err e, record d { state = s }, refl)
  next_of-returns d (ok none, s) = (ok none, compact (record d { state = s }), refl)
  next_of-returns d (ok (some frame), s) =
      (ok (some frame), record d { state = finish_frame s }, refl)

  -- `parse` returns on every input.
  pub parse_returns :
      (buf : Bytes)
      → (r : Result (Option (Frame × ℕ)) ParseError) × (parse size_of_frame buf ≡ some r)
  unfolding parse
  parse_returns buf =
      let (r, steps) =
        step-Returns size_of_frame default_limits (enough size_of_frame buf) buf new_decoding
          (omega arith) in
      rw steps (with_scan-returns r)

  -- `try_next` returns from every state of a decoder: the fuel of one round for each byte and one
  -- more is enough.
  pub try_next_returns :
      (d : Decoder)
      → (r : Result (Option Frame) ParseError) × (d' : Decoder) × (try_next size_of_frame d
          ≡ some (r, d'))
  unfolding try_next next_of
  try_next_returns d =
      let (r, steps) =
        step-Returns size_of_frame d.limits (enough size_of_frame d.buf) d.buf d.state
          (omega arith) in
      rw (try_next, steps) (next_of-returns d r)
