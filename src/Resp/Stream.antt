-- ===== src/Resp/Stream.antt =====
-- A stream of frames through the `Decoder` of lib.rs: `feed` once, then `try_next` until it returns no
-- frame.
use seedstone.Base.{
  ℕ, zero, suc, ◌-◌, ◌^◌, ◌==◌, ◌<◌, ltb, ◌≡◌, refl, sym, ap, ◌∙◌, inl, inr, Bool-cases, false,
  Bytes, none, some, List, [], ◌∷◌, ◌++◌, length, drop, get_elem?, All, arith, length-drop, ok,
}
use seedstone.Resp.{Frame}
use seedstone.Resp.Encoding.{encoded}
use seedstone.Resp.Decoder.{
  Decoding, DecoderLimits, start, check_frame_bytes, shift_back, skip_lines,
}
use seedstone.Resp.Reader.{read_element, read_from, read_skipped, read_typed}
use seedstone.Resp.Machine.{step, Decoder, try_next, next_of, compact, feed, ran_out}
use seedstone.Resp.Rounds.{round}
use seedstone.Resp.RoundTrip.{Fits, IsBetween, IsReady, try_next-delivers}

-- What the encoder writes for the frames, one after the other.
abbrev pub wires : List Frame → Bytes
wires [] = []
wires (f ∷ fs) = encoded f ++ wires fs

get_elem?_past : (n : ℕ) (l : Bytes) → drop n l ≡ [] → get_elem? l n ≡ none
get_elem?_past n [] e = refl
get_elem?_past zero (x ∷ l) e = cc
get_elem?_past (suc n) (x ∷ l) e = get_elem?_past n l e

module _ (size_of_frame : ℕ) where
  compact-IsReady :
      (d : Decoder) (rest : Bytes)
      → IsReady size_of_frame d rest
      → IsReady size_of_frame (compact d) rest
        × ((compact d).buf ≡ rest)
        × ((compact d).state.frame_start ≡ 0)
        × ((compact d).limits ≡ d.limits)
  unfolding compact shift_back
  compact-IsReady d rest (b, p, k, m, at) =
      let read : drop d.state.frame_start d.buf ≡ rest = ap (λ i. drop i d.buf) b ∙ at in
      let none_left : d.state.scan - d.state.frame_start ≡ 0 = omega arith in
      elim (Bool-cases (d.state.frame_start == 0)) [
        | inl zero_start ↦
            let at_zero : d.state.frame_start ≡ 0 = ground arith in
            rw zero_start
              ((b, p, k, m, at), ap (λ i. drop i d.buf) (sym at_zero) ∙ read, at_zero, refl)
        | inr later ↦ rw later (
          (
            omega arith,
            rw p refl,
            k,
            m,
            ap (λ i. drop i (drop d.state.frame_start d.buf)) none_left ∙ read,
          ),
          read,
          omega arith,
          refl,
        )
      ]

  pub feed-IsReady :
      (d : Decoder) (rest bytes : Bytes)
      → IsReady size_of_frame d rest
      → IsReady size_of_frame (feed bytes d) (rest ++ bytes)
        × ((feed bytes d).buf ≡ rest ++ bytes)
        × ((feed bytes d).limits ≡ d.limits)
  unfolding feed
  feed-IsReady d rest bytes ready =
      let ((b, p, k, m, at), whole, at_start, same) = compact-IsReady d rest ready in
      let at_zero : (compact d).state.scan ≡ 0 = omega arith in
      let unread = ap (λ l. l ++ bytes) whole in
      ((b, p, k, m, ap (λ i. drop i ((compact d).buf ++ bytes)) at_zero ∙ unread), unread, same)

  read_element-exhausted :
      (buf : Bytes) (s : Decoding) (limits : DecoderLimits)
      → IsBetween size_of_frame limits buf s []
      → read_element size_of_frame buf s limits ≡ (ok none, s)
  unfolding read_element read_from read_skipped read_typed skip_lines
  read_element-exhausted buf s limits (b, p, k, m, at) =
      ap (λ q. read_from size_of_frame q s.stack buf s limits) p
      ∙ ap (λ l. read_from size_of_frame start l buf s limits) k
      ∙ rw (at, get_elem?_past s.scan buf at) refl

  ran_out-exhausted :
      (buf : Bytes) (s : Decoding) (limits : DecoderLimits)
      → IsBetween size_of_frame limits buf s []
      → ran_out size_of_frame buf s limits ≡ (ok none, s)
  unfolding ran_out check_frame_bytes
  ran_out-exhausted buf s limits (b, p, k, m, at) =
      let nothing : length buf - s.scan ≡ 0 = sym (length-drop s.scan buf) ∙ ap length at in
      let test : ltb limits.max_frame_bytes (length buf - s.frame_start) ≡ false = ground arith in
      rw (ran_out, check_frame_bytes, test) refl

  try_next-exhausted :
      (d : Decoder)
      → IsReady size_of_frame d []
      → (try_next size_of_frame d ≡ some (ok none, compact d))
  unfolding try_next next_of step
  try_next-exhausted d ready =
      ap (λ r. next_of size_of_frame d (round size_of_frame d.limits (length d.buf) d.buf r))
        (read_element-exhausted d.buf d.state d.limits ready)
      ∙ ap (λ r. next_of size_of_frame d (some r)) (ran_out-exhausted d.buf d.state d.limits ready)

  -- The client's loop over one batch: the frames that `try_next` returns in turn, up to the call that
  -- returns none and leaves the last decoder.
  abbrev pub Delivers : Decoder → List Frame → Decoder → Type 0
  Delivers d [] last = try_next size_of_frame d ≡ some (ok none, last)
  Delivers d (f ∷ fs) last =
      (next : Decoder) × (try_next size_of_frame d ≡ some (ok (some f), next))
      × Delivers next fs last

  wires-Delivers :
      (fs : List Frame) (d : Decoder)
      → length d.buf < 2 ^ 64
      → d.limits.max_in_memory < 2 ^ 64
      → All (Fits size_of_frame d.limits) fs
      → IsReady size_of_frame d (wires fs)
      → (last : Decoder) × Delivers d fs last × IsReady size_of_frame last [] × (last.buf ≡ [])
  wires-Delivers [] d small_buf small all ready =
      let (again, empty, at_start, same) = compact-IsReady d [] ready in
      (compact d, try_next-exhausted d ready, again, empty)
  wires-Delivers (f ∷ fs) d small_buf small (fits, all) ready =
      let (next, returned, same_buf, same_limits, again) =
        try_next-delivers size_of_frame d f (wires fs) small_buf small fits ready in
      let (last, more, ended, empty) =
        wires-Delivers fs next (rw same_buf small_buf) (rw same_limits small) (rw same_limits all)
          again in
      (last, (next, returned, more), ended, empty)

  -- A batch of frames that keep the limits and whose texts hold no CRLF, as a release build
  -- encodes them in fewer than 2^64 bytes, fed at once to a decoder with no byte unread and a
  -- memory limit below 2^64, is returned by `try_next` frame by frame and in order. Then
  -- `try_next` returns none, and the buffer is empty. A text with a lone CR or a lone LF is
  -- included, and no part of it is read as a further frame, against the documentation.
  pub feed-Delivers :
      (fs : List Frame) (d : Decoder)
      → IsReady size_of_frame d []
      → d.limits.max_in_memory < 2 ^ 64
      → All (Fits size_of_frame d.limits) fs
      → length (wires fs) < 2 ^ 64
      → (last : Decoder) × Delivers (feed (wires fs) d) fs last
        × IsReady size_of_frame last []
        × (last.buf ≡ [])
  feed-Delivers fs d ready small all small_wire =
      let (again, whole, same) = feed-IsReady d [] (wires fs) ready in
      wires-Delivers fs (feed (wires fs) d) (rw whole small_wire) (rw same small) (rw same all)
        again
