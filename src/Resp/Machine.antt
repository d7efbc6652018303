-- ===== src/Resp/Machine.antt =====
-- `place` and `step` of crates/seedstone-resp/src/lib.rs, the decoder over them and `parse`. The
-- capacity of the buffer is not modelled.
use seedstone.Base.{
  ℕ, zero, suc, ◌-◌, ◌==◌, Result, ok, err, Bytes, Option, none, some, List, [], ◌∷◌, ◌++◌, length,
  drop, if◌then◌else◌,
}
use seedstone.Resp.{Frame, array, frames_of}
use seedstone.Resp.Field.{ParseError}
use seedstone.Resp.Decoder.{
  Decoding, new_decoding, DecoderLimits, default_limits, Element, value, array_header, PendingArray,
  saturating_add, payload_bytes, afford, finish_frame, shift_back, check_frame_bytes,
}
use seedstone.Resp.Reader.{read_element}

abbrev pub Placed : Type 0
Placed = Result (Option Frame) ParseError × Decoding

abbrev pub pop_filled : PendingArray → Option Frame
pop_filled top = if top.remaining == 0 then some (array (frames_of top.elements)) else none

-- `.map(|frame| (frame, state.scan))` under `?`
abbrev pub with_scan : Option Placed → Option (Result (Option (Frame × ℕ)) ParseError)
with_scan none = none
with_scan (some (err e, s)) = some (err e)
with_scan (some (ok none, s)) = some (ok none)
with_scan (some (ok (some frame), s)) = some (ok (some (frame, s.scan)))

abbrev pub add_to : PendingArray → Frame → PendingArray
add_to top frame = record { remaining = top.remaining - 1; elements = top.elements ++ (frame ∷ []) }

-- The size of a `Frame` in memory is the compiler's.
module _ (size_of_frame : ℕ) where
  unfoldable pub cost_of : Frame → ℕ
  unfolding payload_bytes saturating_add
  cost_of frame = saturating_add size_of_frame (payload_bytes frame)

  unfoldable pub charge : Decoding → Frame → DecoderLimits → Result Decoding ParseError
  unfolding afford cost_of
  charge s frame limits = elim (afford s (cost_of frame) limits) [
    | err e ↦ err e
    | ok u ↦ ok (record s { in_memory = saturating_add s.in_memory (cost_of frame) })
  ]

  -- The loop of `place`, on the stack that the state holds.
  unfoldable pub settle : Frame → List PendingArray → Decoding → DecoderLimits → Placed
  unfolding charge frames_of
  settle frame [] s limits = elim (charge s frame limits) [
    | err e ↦ (err e, s)
    | ok paid ↦ (ok (some frame), record paid { in_memory = 0 })
  ]
  settle frame (top ∷ below) s limits = elim (charge s frame limits) [
    | err e ↦ (err e, s)
    | ok paid ↦ elim (pop_filled (add_to top frame)) [
      | none ↦ (ok none, record paid { stack = add_to top frame ∷ below })
      | some filled ↦ settle filled below (record paid { stack = below }) limits
    ]
  ]

  unfoldable pub place : Element → Decoding → DecoderLimits → Placed
  unfolding settle
  place (array_header count) s limits =
      let pushed : PendingArray = record { remaining = count; elements = [] } in
      elim (pop_filled pushed) [
        | none ↦ (ok none, record s { stack = pushed ∷ s.stack })
        | some filled ↦ settle filled s.stack s limits
      ]
  place (value frame) s limits = settle frame s.stack s limits

  -- What one round of the loop of `step` came to: the result, or another round.
  unfoldable pub ran_out : Bytes → Decoding → DecoderLimits → Placed
  unfolding check_frame_bytes
  ran_out buf s limits = elim (check_frame_bytes (length buf - s.frame_start) limits) [
    | err e ↦ (err e, s)
    | ok u ↦ (ok none, s)
  ]

  unfoldable pub delivered : Frame → Decoding → DecoderLimits → Placed
  unfolding check_frame_bytes
  delivered frame s limits = elim (check_frame_bytes (s.scan - s.frame_start) limits) [
    | err e ↦ (err e, s)
    | ok u ↦ (ok (some frame), s)
  ]

  -- On fuel: `none` is no fuel left.
  unfoldable pub step : ℕ → Bytes → Decoding → DecoderLimits → Option Placed
  unfolding read_element place ran_out delivered
  step zero buf s limits = none
  step (suc fuel) buf s limits =
      let (read, s1) = read_element size_of_frame buf s limits in
      elim read [
        | err e ↦ some (err e, s1)
        | ok none ↦ some (ran_out buf s1 limits)
        | ok (some element) ↦
            let (placed, s2) = place element s1 limits in
            elim placed [
              | err e ↦ some (err e, s2)
              | ok (some frame) ↦ some (delivered frame s2 limits)
              | ok none ↦ step fuel buf s2 limits
            ]
      ]

  abbrev pub enough : Bytes → ℕ
  enough buf = suc (length buf)

  unfoldable pub parse : Bytes → Option (Result (Option (Frame × ℕ)) ParseError)
  unfolding step
  parse buf = with_scan (step (enough buf) buf new_decoding default_limits)

pub record Decoder : Type 0 where
  pub buf : Bytes
  pub state : Decoding
  pub limits : DecoderLimits

abbrev pub new : DecoderLimits → Decoder
new limits = record { buf = []; state = new_decoding; limits = limits }

unfoldable pub compact : Decoder → Decoder
unfolding shift_back
compact d = if d.state.frame_start == 0 then d else record d {
  buf = drop d.state.frame_start d.buf;
  state = shift_back d.state.frame_start d.state;
}

unfoldable pub feed : Bytes → Decoder → Decoder
unfolding compact
feed bytes d = record (compact d) { buf = (compact d).buf ++ bytes }

-- The capacity is not modelled, so that what is left of `shrink_to` is the compaction.
abbrev pub shed_to : ℕ → Decoder → Decoder
shed_to cap d = compact d

abbrev pub buffered : Decoder → ℕ
buffered d = length d.buf - d.state.frame_start

module _ (size_of_frame : ℕ) where
  unfoldable pub next_of :
      Decoder → Option Placed → Option (Result (Option Frame) ParseError × Decoder)
  unfolding compact finish_frame
  next_of d none = none
  next_of d (some (err e, s)) = some (err e, record d { state = s })
  next_of d (some (ok none, s)) = some (ok none, compact (record d { state = s }))
  next_of d (some (ok (some frame), s)) =
      some (ok (some frame), record d { state = finish_frame s })

  unfoldable pub try_next : Decoder → Option (Result (Option Frame) ParseError × Decoder)
  unfolding next_of step
  try_next d = next_of d (step size_of_frame (enough size_of_frame d.buf) d.buf d.state d.limits)
