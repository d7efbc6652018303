-- ===== src/Resp/Rounds.antt =====
-- One round of the loop of `step` in lib.rs, and of the loop of `place` in it.
use seedstone.Base.{
  ℕ, suc, ◌+◌, ◌^◌, ◌==◌, ◌≤◌, ◌<◌, ◌≡◌, refl, ap, ◌∙◌, false, Bytes, Option, none, some, List, ◌∷◌,
  arith, ok, err,
}
use seedstone.Resp.{Frame}
use seedstone.Resp.Decoder.{
  Decoding, DecoderLimits, PendingArray, Element, payload_bytes, saturating_add, afford,
}
use seedstone.Resp.Reader.{Read, read_element}
use seedstone.Resp.Machine.{
  Placed, pop_filled, add_to, cost_of, charge, settle, place, ran_out, delivered, step,
}
use seedstone.Resp.Elements.{afford-ok, saturating_add_lem}

module _ (size_of_frame : ℕ) (limits : DecoderLimits) where
  -- What a round of `step` does with what `place` returned.
  abbrev pub continue : ℕ → Bytes → Placed → Option Placed
  continue fuel buf result =
      let (placed, s) = result in
      elim placed [
        | err e ↦ some (err e, s)
        | ok (some frame) ↦ some (delivered size_of_frame frame s limits)
        | ok none ↦ step size_of_frame fuel buf s limits
      ]

  -- What the innermost array comes to.
  abbrev pub topped : PendingArray → List PendingArray → Decoding → Placed
  topped top below s = elim (pop_filled top) [
    | none ↦ (ok none, record s { stack = top ∷ below })
    | some filled ↦ settle size_of_frame filled below (record s { stack = below }) limits
  ]

  abbrev pub round : ℕ → Bytes → Read → Option Placed
  round fuel buf result =
      let (read, s) = result in
      elim read [
        | err e ↦ some (err e, s)
        | ok none ↦ some (ran_out size_of_frame buf s limits)
        | ok (some element) ↦ continue fuel buf (place size_of_frame element s limits)
      ]

  pub step-read :
      (fuel : ℕ) (buf : Bytes) (s s' : Decoding) (element : Element)
      → read_element size_of_frame buf s limits ≡ (ok (some element), s')
      → step size_of_frame (suc fuel) buf s limits
        ≡ continue fuel buf (place size_of_frame element s' limits)
  unfolding step
  step-read fuel buf s s' element e = ap (round fuel buf) e

  pub charge-ok :
      (s : Decoding) (f : Frame)
      → limits.max_in_memory < 2 ^ 64
      → s.in_memory + (size_of_frame + payload_bytes f) ≤ limits.max_in_memory
      → charge size_of_frame s f limits
        ≡ ok (record s { in_memory = s.in_memory + (size_of_frame + payload_bytes f) })
  unfolding charge cost_of
  charge-ok s f small h =
      let cost : cost_of size_of_frame f ≡ size_of_frame + payload_bytes f =
        saturating_add_lem size_of_frame (payload_bytes f) (omega arith) in
      let affordable : afford s (cost_of size_of_frame f) limits ≡ ok tt =
        afford-ok s (cost_of size_of_frame f) limits (omega arith) in
      let memory : saturating_add s.in_memory (cost_of size_of_frame f)
          ≡ s.in_memory + (size_of_frame + payload_bytes f) =
        saturating_add_lem s.in_memory (cost_of size_of_frame f) (omega arith) ∙ omega arith in
      rw (charge, affordable) (ap (λ m. ok (record s { in_memory = m })) memory)

  pub settle-topped :
      (f : Frame) (top : PendingArray) (below : List PendingArray) (s : Decoding)
      → limits.max_in_memory < 2 ^ 64
      → s.in_memory + (size_of_frame + payload_bytes f) ≤ limits.max_in_memory
      → settle size_of_frame f (top ∷ below) s limits
        ≡ topped
            (add_to top f)
            below
            (record s { in_memory = s.in_memory + (size_of_frame + payload_bytes f) })
  unfolding settle
  settle-topped f top below s small h = rw (settle, charge-ok s f small h) refl

  pub topped-unfilled :
      (top : PendingArray) (below : List PendingArray) (k : ℕ) (s : Decoding)
      → top.remaining ≡ suc k
      → topped top below s ≡ (ok none, record s { stack = top ∷ below })
  topped-unfilled top below k s h =
      let test : (top.remaining == 0) ≡ false = ground arith in rw (topped, test) refl
