-- ===== src/Resp/RoundTrip.antt =====
-- What the encoder of lib.rs writes, the decoder reads.
use seedstone.Base.{
  ℕ, suc, ◌+◌, ◌-◌, ◌^◌, ◌≤◌, ◌<◌, ltb, ◌≡◌, refl, sym, ap, ◌∙◌, false, Bytes, some, [], ◌++◌,
  length, drop, arith, drop_on, length-append, length-drop, ok, some-inj,
}
use seedstone.Resp.{Frame, size, encode}
use seedstone.Resp.Encoding.{encoded, encode_lem}
use seedstone.Resp.Decoder.{
  Decoding, DecoderLimits, default_limits, start, payload_bytes, check_frame_bytes, finish_frame,
  new_decoding,
}
use seedstone.Resp.Machine.{settle, delivered, step, enough, parse, Decoder, try_next, next_of}
use seedstone.Resp.Sendable.{Sendable, whole_cost, size-encoded}
use seedstone.Resp.Rounds.{continue, charge-ok}
use seedstone.Resp.Arrival.{step-Arrives}

module _ (size_of_frame : ℕ) (limits : DecoderLimits) where
  -- A frame that the decoder accepts whole.
  abbrev pub Fits : Frame → Type 0
  Fits f =
      Sendable 0 f
      × (whole_cost size_of_frame f ≤ limits.max_in_memory)
      × (length (encoded f) ≤ limits.max_frame_bytes)

  delivered-ok :
      (f : Frame) (s : Decoding)
      → s.scan - s.frame_start ≤ limits.max_frame_bytes
      → delivered size_of_frame f s limits ≡ (ok (some f), s)
  unfolding delivered check_frame_bytes
  delivered-ok f s h =
      let test : ltb limits.max_frame_bytes (s.scan - s.frame_start) ≡ false = ground arith in
      rw (delivered, check_frame_bytes, test) refl

  settle-last :
      (f : Frame) (s : Decoding)
      → limits.max_in_memory < 2 ^ 64
      → s.in_memory + (size_of_frame + payload_bytes f) ≤ limits.max_in_memory
      → settle size_of_frame f [] s limits ≡ (ok (some f), record s { in_memory = 0 })
  unfolding settle
  settle-last f s small h = rw (settle, charge-ok size_of_frame limits s f small h) refl

  -- A state between two frames, with `rest` unread.
  abbrev pub IsBetween : Bytes → Decoding → Bytes → Type 0
  IsBetween buf s rest =
      (s.frame_start ≡ s.scan)
      × (s.partial ≡ start)
      × (s.stack ≡ [])
      × (s.in_memory ≡ 0)
      × (drop s.scan buf ≡ rest)

  pub step-delivers :
      (buf : Bytes) (s : Decoding) (f : Frame) (rest : Bytes)
      → length buf < 2 ^ 64
      → limits.max_in_memory < 2 ^ 64
      → Fits f
      → IsBetween buf s (encoded f ++ rest)
      → (s' : Decoding) × (step size_of_frame (enough size_of_frame buf) buf s limits
          ≡ some (ok (some f), s'))
        × (s'.scan ≡ s.scan + length (encoded f))
        × IsBetween buf (finish_frame s') rest
  unfolding finish_frame
  step-delivers buf s f rest small_buf small (sendable, afforded, short) (b, p, k, m, at) =
      let within : size f ≤ length buf = omega (
        arith,
        size-encoded f,
        length-append (encoded f) rest,
        length-drop s.scan buf,
        ap length at,
      ) in
      let fuel = suc (length buf) - size f in
      let depth : Sendable (length s.stack) f = rw k sendable in
      let (s', (at_start, scanned, whole, same_stack, memory), steps) =
        step-Arrives size_of_frame limits buf small_buf small f (suc (length buf)) fuel s rest
          (omega arith) depth (omega arith) at p in
      (
        record s' { in_memory = 0 },
        steps
            ∙ ap (λ l. continue size_of_frame limits fuel buf (settle size_of_frame f l s' limits))
                k
            ∙ ap (continue size_of_frame limits fuel buf) (settle-last f s' small (omega arith))
            ∙ ap some (delivered-ok f (record s' { in_memory = 0 }) (omega arith)),
        scanned,
        (
          refl,
          refl,
          same_stack ∙ k,
          refl,
          ap (λ i. drop i buf) scanned ∙ drop_on s.scan buf (encoded f) rest at,
        ),
      )

-- What a release build's encoder writes for a frame parses back to it, whatever follows, and
-- `parse` reports the bytes written, if the texts in it hold no CRLF, it keeps the ceilings of the
-- protocol and the default limits, and the bytes are fewer than 2^64. A text with a lone CR or a
-- lone LF is included: the documentation says that it ends the frame early, and it does not.
pub parse-encode :
    (size_of_frame : ℕ) (f : Frame) (wire rest : Bytes)
    → encode f [] ≡ some wire
    → Fits size_of_frame default_limits f
    → length (wire ++ rest) < 2 ^ 64
    → parse size_of_frame (wire ++ rest) ≡ some (ok (some (f, length wire)))
unfolding parse
parse-encode size_of_frame f wire rest e fits small =
    let same : wire ≡ encoded f = some-inj (sym e ∙ encode_lem f []) in
    let (s', steps, scanned, between) =
      step-delivers size_of_frame default_limits (wire ++ rest) new_decoding f rest small
        (omega arith) fits (refl, refl, refl, refl, ap (λ w. w ++ rest) same) in
    let consumed : s'.scan ≡ length wire = omega (arith, scanned, ap length same) in
    rw (steps, consumed) refl

module _ (size_of_frame : ℕ) where
  -- A decoder between two frames, with `rest` fed and unread.
  abbrev pub IsReady : Decoder → Bytes → Type 0
  IsReady d rest = IsBetween size_of_frame d.limits d.buf d.state rest

  pub try_next-delivers :
      (d : Decoder) (f : Frame) (rest : Bytes)
      → length d.buf < 2 ^ 64
      → d.limits.max_in_memory < 2 ^ 64
      → Fits size_of_frame d.limits f
      → IsReady d (encoded f ++ rest)
      → (d' : Decoder) × (try_next size_of_frame d ≡ some (ok (some f), d'))
        × (d'.buf ≡ d.buf)
        × (d'.limits ≡ d.limits)
        × IsReady d' rest
  unfolding try_next next_of
  try_next-delivers d f rest small_buf small fits ready =
      let (s', steps, scanned, between) =
        step-delivers size_of_frame d.limits d.buf d.state f rest small_buf small fits ready in
      (record d { state = finish_frame s' }, rw (try_next, steps) refl, refl, refl, between)
