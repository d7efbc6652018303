-- ===== src/Resp/Verdict.antt =====
-- `parse` of lib.rs on more bytes: a frame or a refusal stands.
use seedstone.Base.{
  ℕ, zero, suc, ◌-◌, ◌≤◌, ltb, ◌≡◌, ◌≢◌, refl, sym, Option, none, some, Bytes, ◌⊎◌, ◌++◌, length,
  arith, ok, err, Bool-cases, inl, inr, none≢some, err≢ok, some-inj, ok-inj, length-append,
}
use seedstone.Resp.{Frame}
use seedstone.Resp.Field.{ParseError, frame_too_large}
use seedstone.Resp.Decoder.{
  Decoding, new_decoding, DecoderLimits, default_limits, check_frame_bytes,
}
use seedstone.Resp.Reader.{Read, read_element}
use seedstone.Resp.Machine.{Placed, place, ran_out, delivered, step, parse, with_scan, enough}
use seedstone.Resp.Rounds.{continue, round}
use seedstone.Resp.Append.{Stays, read_element-Stays}

module _ (size_of_frame : ℕ) (limits : DecoderLimits) (buf more : Bytes) where
  -- The result stands, unless the bytes ran out, or were refused for their number.
  abbrev Stands : Option Placed → Option Placed → Type 0
  Stands none o = Unit {0}
  Stands (some (ok none, s)) o = Unit {0}
  Stands (some (ok (some f), s)) o = o ≡ some (ok (some f), s)
  Stands (some (err e, s)) o = (e ≡ frame_too_large limits.max_frame_bytes) ⊎ (o ≡ some (err e, s))

  Stands-refl : (r : Placed) → Stands (some r) (some r)
  Stands-refl (ok none, s) = tt
  Stands-refl (ok (some f), s) = refl
  Stands-refl (err e, s) = inr refl

  ran_out-Stands :
      (s : Decoding) (o : Option Placed) → Stands (some (ran_out size_of_frame buf s limits)) o
  unfolding ran_out check_frame_bytes
  ran_out-Stands s o = elim (Bool-cases (ltb limits.max_frame_bytes (length buf - s.frame_start))) [
    | inl large ↦ rw (ran_out, check_frame_bytes, large) (inl refl)
    | inr fits ↦ rw (ran_out, check_frame_bytes, fits) tt
  ]

  continue-Stands :
      (fuel fuel' : ℕ) (r : Placed)
      → ((s : Decoding)
          → Stands
              (step size_of_frame fuel buf s limits)
              (step size_of_frame fuel' (buf ++ more) s limits))
      → Stands
          (continue size_of_frame limits fuel buf r)
          (continue size_of_frame limits fuel' (buf ++ more) r)
  continue-Stands fuel fuel' (err e, s) rest = inr refl
  continue-Stands fuel fuel' (ok none, s) rest = rest s
  continue-Stands fuel fuel' (ok (some f), s) rest =
      Stands-refl (delivered size_of_frame f s limits)

  round-Stands :
      (fuel fuel' : ℕ) (r r' : Read)
      → Stays r r'
      → ((s : Decoding)
          → Stands
              (step size_of_frame fuel buf s limits)
              (step size_of_frame fuel' (buf ++ more) s limits))
      → Stands
          (round size_of_frame limits fuel buf r)
          (round size_of_frame limits fuel' (buf ++ more) r')
  round-Stands fuel fuel' (err e, s) r' h rest = rw h (inr refl)
  round-Stands fuel fuel' (ok none, s) r' h rest =
      ran_out-Stands s (round size_of_frame limits fuel' (buf ++ more) r')
  round-Stands fuel fuel' (ok (some element), s) r' h rest =
      rw h (continue-Stands fuel fuel' (place size_of_frame element s limits) rest)

  step-Stands :
      (fuel fuel' : ℕ) (s : Decoding)
      → fuel ≤ fuel'
      → Stands
          (step size_of_frame fuel buf s limits)
          (step size_of_frame fuel' (buf ++ more) s limits)
  unfolding step
  step-Stands zero fuel' s h = tt
  step-Stands (suc fuel) zero s h = absurd (omega arith)
  step-Stands (suc fuel) (suc fuel') s h =
      round-Stands fuel fuel' (read_element size_of_frame buf s limits)
        (read_element size_of_frame (buf ++ more) s limits)
        (read_element-Stays buf more size_of_frame s limits)
        (λ s'. step-Stands fuel fuel' s' (omega arith))

  frame-Stands :
      (o o' : Option Placed) (f : Frame) (n : ℕ)
      → Stands o o'
      → with_scan o ≡ some (ok (some (f, n)))
      → with_scan o' ≡ some (ok (some (f, n)))
  frame-Stands none o' f n h e = absurd (none≢some e)
  frame-Stands (some (err x, s)) o' f n h e = absurd (err≢ok (some-inj e))
  frame-Stands (some (ok none, s)) o' f n h e = absurd (none≢some (ok-inj (some-inj e)))
  frame-Stands (some (ok (some g), s)) o' f n h e = rw h e

  error-Stands :
      (o o' : Option Placed) (x : ParseError)
      → Stands o o'
      → x ≢ frame_too_large limits.max_frame_bytes
      → with_scan o ≡ some (err x)
      → with_scan o' ≡ some (err x)
  error-Stands none o' x h k e = absurd (none≢some e)
  error-Stands (some (err y, s)) o' x (inl large) k e = absurd (k (cc))
  error-Stands (some (err y, s)) o' x (inr same) k e = rw same e
  error-Stands (some (ok none, s)) o' x h k e = absurd (err≢ok (sym (some-inj e)))
  error-Stands (some (ok (some g), s)) o' x h k e = absurd (err≢ok (sym (some-inj e)))

module _ (size_of_frame : ℕ) (buf more : Bytes) where
  parse-Stands :
      Stands size_of_frame default_limits buf more
        (step size_of_frame (enough size_of_frame buf) buf new_decoding default_limits)
        (step size_of_frame
          (enough size_of_frame (buf ++ more))
          (buf ++ more)
          new_decoding
          default_limits)
  parse-Stands =
      step-Stands size_of_frame default_limits buf more (enough size_of_frame buf)
        (enough size_of_frame (buf ++ more)) new_decoding (omega (arith, length-append buf more))

  -- A frame that `parse` returns, and the number of bytes that it reports, are the same when more
  -- bytes follow.
  pub parse-append :
      (f : Frame) (n : ℕ)
      → parse size_of_frame buf ≡ some (ok (some (f, n)))
      → parse size_of_frame (buf ++ more) ≡ some (ok (some (f, n)))
  unfolding parse
  parse-append f n e =
      frame-Stands size_of_frame default_limits buf more
        (step size_of_frame (enough size_of_frame buf) buf new_decoding default_limits)
        (step size_of_frame (enough size_of_frame (buf ++ more)) (buf ++ more) new_decoding
          default_limits)
        f n parse-Stands e

  -- A refusal by `parse`, other than for the number of bytes, is the same when more bytes follow.
  pub parse_error-append :
      (x : ParseError)
      → parse size_of_frame buf ≡ some (err x)
      → x ≢ frame_too_large default_limits.max_frame_bytes
      → parse size_of_frame (buf ++ more) ≡ some (err x)
  unfolding parse
  parse_error-append x e k =
      error-Stands size_of_frame default_limits buf more
        (step size_of_frame (enough size_of_frame buf) buf new_decoding default_limits)
        (step size_of_frame (enough size_of_frame (buf ++ more)) (buf ++ more) new_decoding
          default_limits)
        x parse-Stands k e
