-- ===== src/Resp/Bounds.antt =====
-- The limits of lib.rs hold of every frame that the decoder delivers and of all that it holds.
use seedstone.Base.{
  ℕ, zero, suc, ◌-◌, ◌^◌, ◌≤◌, ◌<◌, ltb, ◌≡◌, refl, sym, ap, ◌∙◌, Option, none, some, Bytes, [],
  ◌++◌, length, arith, ok, err, Option-cases, Bool-cases, inl, inr, subst, none≢some, err≢ok,
  ok-inj, some-inj,
}
use seedstone.Resp.Encoding.{encoded, encode_lem}
use seedstone.Resp.RoundTrip.{parse-encode}
use seedstone.Resp.{encode, Frame, array, frames_of}
use seedstone.Resp.Decoder.{
  Decoding, new_decoding, DecoderLimits, default_limits, PendingArray, Element, value, array_header,
  check_frame_bytes,
}
use seedstone.Resp.Reader.{Read, read_element}
use seedstone.Resp.Machine.{
  Placed, pop_filled, place, ran_out, delivered, step, parse, with_scan, enough,
}
use seedstone.Resp.Sendable.{Sendable, inner, whole_cost}
use seedstone.Resp.Rounds.{continue, round}
use seedstone.Resp.Resume.{start-Resumes}
use seedstone.Resp.Held.{StackIsSound, held, IsSound, Settled, settle-Settled}
use seedstone.Resp.Delivery.{CanResume, ElementIsSound, ReadIsSound}
use seedstone.Resp.Reading.{read_element-IsSound}

CanResume-Same :
    (buf : Bytes) (s s' : Decoding)
    → s'.scan ≡ s.scan
    → s'.partial ≡ s.partial
    → CanResume buf s
    → CanResume buf s'
CanResume-Same buf s s' scanned p h = rw (scanned, p) h

module _ (size_of_frame : ℕ) (limits : DecoderLimits) where
  place-Settled :
      (element : Element) (s : Decoding)
      → limits.max_in_memory < 2 ^ 64 - 1
      → IsSound size_of_frame limits s
      → ElementIsSound size_of_frame s element
      → Settled size_of_frame limits s (place size_of_frame element s limits)
  unfolding place StackIsSound held Sendable inner
  place-Settled (value f) s small (sound, m, within) (h, i) =
      settle-Settled size_of_frame limits f s.stack s small h sound refl (omega arith) within
  place-Settled (array_header count) s small (sound, m, within) (long, deep) =
      let pushed : PendingArray = record { remaining = count; elements = [] } in
      elim (Option-cases (pop_filled pushed)) [
        | inl waits ↦
            rw (place, waits)
              (
                ((ground arith, omega arith, tt, deep, sound), omega arith, within),
                (refl, refl, refl),
              )
        | inr (filled, popped) ↦
            let same : filled ≡ array (frames_of []) = ground arith in
            rw (place, popped, same)
              (settle-Settled size_of_frame limits (array (frames_of [])) s.stack s small
                (deep, omega arith, tt) sound refl (omega arith) within)
      ]

  IsSound-Keeps :
      (s s' : Decoding)
      → s'.stack ≡ s.stack
      → s'.in_memory ≡ s.in_memory
      → IsSound size_of_frame limits s
      → IsSound size_of_frame limits s'
  IsSound-Keeps s s' k m h = rw (k, m) h

  ElementIsSound-Keeps :
      (s s' : Decoding) (element : Element)
      → s'.stack ≡ s.stack
      → ElementIsSound size_of_frame s element
      → ElementIsSound size_of_frame s' element
  ElementIsSound-Keeps s s' (value f) k h = rw k h
  ElementIsSound-Keeps s s' (array_header count) k h = rw k h

  -- What `step` may return.
  abbrev pub OutcomeIsSound : Bytes → Placed → Type 0
  OutcomeIsSound buf (ok none, s) =
      IsSound size_of_frame limits s
      × CanResume buf s
      × (length buf - s.frame_start ≤ limits.max_frame_bytes)
  OutcomeIsSound buf (ok (some f), s) =
      Sendable 0 f
      × (whole_cost size_of_frame f ≤ limits.max_in_memory)
      × (s.scan - s.frame_start ≤ limits.max_frame_bytes)
      × IsSound size_of_frame limits s
      × (s.stack ≡ [])
  OutcomeIsSound buf (err e, s) = Unit {0}

  ran_out-IsSound :
      (buf : Bytes) (s : Decoding)
      → IsSound size_of_frame limits s
      → CanResume buf s
      → OutcomeIsSound buf (ran_out size_of_frame buf s limits)
  unfolding ran_out check_frame_bytes
  ran_out-IsSound buf s sound resume =
      elim (Bool-cases (ltb limits.max_frame_bytes (length buf - s.frame_start))) [
        | inl large ↦ rw (ran_out, check_frame_bytes, large) tt
        | inr fits ↦ rw (ran_out, check_frame_bytes, fits) (sound, resume, ground arith)
      ]

  delivered-IsSound :
      (buf : Bytes) (f : Frame) (s : Decoding)
      → Sendable 0 f
      → whole_cost size_of_frame f ≤ limits.max_in_memory
      → IsSound size_of_frame limits s
      → s.stack ≡ []
      → OutcomeIsSound buf (delivered size_of_frame f s limits)
  unfolding delivered check_frame_bytes
  delivered-IsSound buf f s h cost sound k =
      elim (Bool-cases (ltb limits.max_frame_bytes (s.scan - s.frame_start))) [
        | inl large ↦ rw (delivered, check_frame_bytes, large) tt
        | inr fits ↦ rw (delivered, check_frame_bytes, fits) (h, cost, ground arith, sound, k)
      ]

  -- Every result that the loop returns on this fuel is sound.
  abbrev pub AllSound : Bytes → Option Placed → Type 0
  AllSound buf none = Unit {0}
  AllSound buf (some r) = OutcomeIsSound buf r

  continue-IsSound :
      (fuel : ℕ) (buf : Bytes) (s : Decoding) (r : Placed)
      → Settled size_of_frame limits s r
      → CanResume buf s
      → ((s' : Decoding)
          → IsSound size_of_frame limits s'
          → CanResume buf s'
          → AllSound buf (step size_of_frame fuel buf s' limits))
      → AllSound buf (continue size_of_frame limits fuel buf r)
  continue-IsSound fuel buf s (err e, s') h resume more = tt
  continue-IsSound fuel buf s (ok none, s') (sound, (b, scanned, p)) resume more =
      more s' sound (CanResume-Same buf s s' scanned p resume)
  continue-IsSound fuel buf s (ok (some f), s') (h, cost, sound, k, same) resume more =
      delivered-IsSound buf f s' h cost sound k

  round-IsSound :
      (fuel : ℕ) (buf : Bytes) (s : Decoding) (r : Read)
      → limits.max_in_memory < 2 ^ 64 - 1
      → IsSound size_of_frame limits s
      → ReadIsSound size_of_frame buf s r
      → ((s' : Decoding)
          → IsSound size_of_frame limits s'
          → CanResume buf s'
          → AllSound buf (step size_of_frame fuel buf s' limits))
      → AllSound buf (round size_of_frame limits fuel buf r)
  round-IsSound fuel buf s (err e, s') small sound h more = tt
  round-IsSound fuel buf s (ok none, s') small sound ((k, m), resume) more =
      ran_out-IsSound buf s' (IsSound-Keeps s s' k m sound) resume
  round-IsSound fuel buf s (ok (some element), s') small sound (h, (k, m), resume) more =
      continue-IsSound fuel buf s' (place size_of_frame element s' limits)
        (place-Settled element s' small (IsSound-Keeps s s' k m sound)
          (ElementIsSound-Keeps s s' element k h))
        resume more

  pub step-IsSound :
      (fuel : ℕ) (buf : Bytes) (s : Decoding)
      → limits.max_in_memory < 2 ^ 64 - 1
      → IsSound size_of_frame limits s
      → CanResume buf s
      → AllSound buf (step size_of_frame fuel buf s limits)
  unfolding step
  step-IsSound zero buf s small sound resume = tt
  step-IsSound (suc fuel) buf s small sound resume =
      round-IsSound fuel buf s (read_element size_of_frame buf s limits) small sound
        (read_element-IsSound size_of_frame buf s limits resume)
        (λ s' sound' resume'. step-IsSound fuel buf s' small sound' resume')

with_scan-IsSound :
    (size_of_frame : ℕ) (limits : DecoderLimits) (buf : Bytes) (o : Option Placed) (f : Frame)
    (n : ℕ)
    → AllSound size_of_frame limits buf o
    → with_scan o ≡ some (ok (some (f, n)))
    → Sendable 0 f × (whole_cost size_of_frame f ≤ limits.max_in_memory)
with_scan-IsSound size_of_frame limits buf none f n h e = absurd (none≢some e)
with_scan-IsSound size_of_frame limits buf (some (err x, s)) f n h e = absurd (err≢ok (some-inj e))
with_scan-IsSound size_of_frame limits buf (some (ok none, s)) f n h e =
    absurd (none≢some (ok-inj (some-inj e)))
with_scan-IsSound size_of_frame limits buf (some (ok (some g), s)) f n (h, cost, short, sound, k)
      e =
    let same : g ≡ f = ap (λ p. p.0) (some-inj (ok-inj (some-inj e))) in
    subst (λ g. Sendable 0 g × (whole_cost size_of_frame g ≤ limits.max_in_memory)) same (h, cost)

-- A frame that `parse` returns keeps every ceiling: at most 64 arrays deep, each array and bulk
-- within its length, integers of 64 bits, UTF-8 texts without CRLF, and a cost in memory within
-- the limit.
pub parse_bounds :
    (size_of_frame : ℕ) (buf : Bytes) (f : Frame) (n : ℕ)
    → parse size_of_frame buf ≡ some (ok (some (f, n)))
    → Sendable 0 f × (whole_cost size_of_frame f ≤ default_limits.max_in_memory)
unfolding parse StackIsSound held
parse_bounds size_of_frame buf f n e =
    with_scan-IsSound size_of_frame default_limits buf
      (step size_of_frame (enough size_of_frame buf) buf new_decoding default_limits) f n
      (step-IsSound size_of_frame default_limits (enough size_of_frame buf) buf new_decoding
        (omega arith) (tt, refl, omega arith) (tt, start-Resumes buf new_decoding refl))
      e

-- A frame that `parse` returned, encoded again by a release build in no more bytes than the
-- decoder buffers, parses to itself, whatever follows, if the bytes are fewer than 2^64. Its texts
-- may hold a lone CR or a lone LF, on which a debug build's assertion panics.
pub encode-parse :
    (size_of_frame : ℕ) (buf : Bytes) (f : Frame) (n : ℕ) (wire rest : Bytes)
    → parse size_of_frame buf ≡ some (ok (some (f, n)))
    → encode f [] ≡ some wire
    → length wire ≤ default_limits.max_frame_bytes
    → length (wire ++ rest) < 2 ^ 64
    → parse size_of_frame (wire ++ rest) ≡ some (ok (some (f, length wire)))
encode-parse size_of_frame buf f n wire rest e w short small =
    let (h, cost) = parse_bounds size_of_frame buf f n e in
    let same : wire ≡ encoded f = some-inj (sym w ∙ encode_lem f []) in
    parse-encode size_of_frame f wire rest w
      (h, cost, subst (λ l. length l ≤ default_limits.max_frame_bytes) same short) small
