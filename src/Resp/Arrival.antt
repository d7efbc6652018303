-- ===== src/Resp/Arrival.antt =====
-- The loop of `step` in lib.rs over the wire form of one frame: what it has read when the frame is
-- about to be placed.
use seedstone.Base.{
  ℕ, suc, ◌+◌, ◌-◌, ◌^◌, ◌≤◌, ◌<◌, ◌≡◌, refl, ap, ◌∙◌, Bytes, List, [], ◌∷◌, ◌++◌, length, drop,
  arith, drop_on, length-append, append_assoc, append-nil, decimal,
}
use seedstone.Resp.{
  Frame, Frames, simple, error, integer, bulk, null, array, nil, cons, list_of, frames_of, line,
  size, sizes,
}
use seedstone.Resp.Encoding.{encoded, encoded_all}
use seedstone.Resp.Decoder.{
  Decoding, DecoderLimits, PendingArray, start, value, array_header, payload_bytes,
}
use seedstone.Resp.Machine.{settle, place, step}
use seedstone.Resp.Elements.{
  past, simple-IsRead, error-IsRead, integer-IsRead, null-IsRead, bulk-IsRead, array-is_read,
  IsRead,
}
use seedstone.Resp.Sendable.{Sendable, SendableAll, inner, costs, whole_cost, count-costs}
use seedstone.Resp.Rounds.{continue, topped, step-read, settle-topped, topped-unfilled}

-- A state past the bytes up to `next`, with `m` bytes in memory and the arrays of `stack`.
abbrev pub IsPast : Decoding → Decoding → ℕ → ℕ → List PendingArray → Type 0
IsPast s s' next m stack =
    (s'.frame_start ≡ s.frame_start)
    × (s'.scan ≡ next)
    × (s'.partial ≡ start)
    × (s'.stack ≡ stack)
    × (s'.in_memory ≡ m)

frames_of-list_of : (fs : Frames) → frames_of (list_of fs) ≡ fs
unfolding frames_of list_of
frames_of-list_of nil = refl
frames_of-list_of (cons f fs) = ap (cons f) (frames_of-list_of fs)

module _ (size_of_frame : ℕ) (limits : DecoderLimits) (buf : Bytes)
    (small_buf : length buf < 2 ^ 64) (small : limits.max_in_memory < 2 ^ 64) where
  abbrev pub Arrives : Frame → Type 0
  Arrives f =
      (n fuel : ℕ) (s : Decoding) (rest : Bytes)
      → n ≡ size f + fuel
      → Sendable (length s.stack) f
      → s.in_memory + whole_cost size_of_frame f ≤ limits.max_in_memory
      → drop s.scan buf ≡ encoded f ++ rest
      → s.partial ≡ start
      → (s' : Decoding) × IsPast s s' (s.scan + length (encoded f))
          (s.in_memory + inner size_of_frame f) s.stack
        × (step size_of_frame n buf s limits
            ≡ continue size_of_frame limits fuel buf (settle size_of_frame f s.stack s' limits))

  abbrev pub ArriveAll : Frames → Type 0
  ArriveAll fs =
      (n fuel : ℕ) (s : Decoding) (rest : Bytes) (done : List Frame) (below : List PendingArray)
      → n ≡ sizes fs + fuel
      → SendableAll (suc (length below)) fs
      → s.in_memory + costs size_of_frame fs ≤ limits.max_in_memory
      → drop s.scan buf ≡ encoded_all fs ++ rest
      → s.partial ≡ start
      → (s' : Decoding) × IsPast s s' (s.scan + length (encoded_all fs))
          (s.in_memory + costs size_of_frame fs) below
        × (continue size_of_frame limits n buf (
              topped size_of_frame limits
                (record { remaining = length (list_of fs); elements = done }) below s)
            ≡ continue size_of_frame limits fuel buf
                (settle size_of_frame (array (frames_of (done ++ list_of fs))) below s' limits))

  value-Arrives :
      (f : Frame)
      → size f ≡ 1
      → inner size_of_frame f ≡ 0
      → ((s : Decoding) (rest : Bytes)
          → Sendable (length s.stack) f
          → s.in_memory + whole_cost size_of_frame f ≤ limits.max_in_memory
          → drop s.scan buf ≡ encoded f ++ rest
          → s.partial ≡ start
          → IsRead size_of_frame limits buf s f)
      → Arrives f
  unfolding place
  value-Arrives f one none_inside is_read n fuel s rest e sendable afforded at p =
      let (k, r) = is_read s rest sendable afforded at p in
      let rounds : n ≡ suc fuel = omega arith in
      let memory : s.in_memory ≡ s.in_memory + inner size_of_frame f = omega arith in
      (
        past (s.scan + length (encoded f)) k s,
        (refl, refl, refl, refl, memory),
        rw rounds (
            step-read size_of_frame limits fuel buf s (past (s.scan + length (encoded f)) k s)
              (value f) r),
      )

  array-Arrives : (fs : Frames) → ArriveAll fs → Arrives (array fs)
  unfolding place encoded size inner Sendable payload_bytes
  array-Arrives fs ih n fuel s rest e (deep, long, sendable) afforded at p =
      let count = length (list_of fs) in
      let head = line b'*' (decimal count) in
      let at_items : drop s.scan buf ≡ head ++ (encoded_all fs ++ rest) =
        at ∙ append_assoc head (encoded_all fs) rest in
      let (k, r) =
        array-is_read size_of_frame limits buf s count (encoded_all fs ++ rest) deep long small
          (omega (arith, count-costs size_of_frame fs)) at_items p in
      let s1 = past (s.scan + length head) k s in
      let (s', (at_start, scanned, whole, same_stack, memory), steps) =
        ih (sizes fs + fuel) fuel s1 rest [] s.stack refl sendable (omega arith)
          (drop_on s.scan buf head (encoded_all fs ++ rest) at_items) refl in
      let rounds : n ≡ suc (sizes fs + fuel) = omega arith in
      (
        s',
        (at_start, omega (arith, length-append head (encoded_all fs)), whole, same_stack, memory),
        rw rounds (
            step-read size_of_frame limits (sizes fs + fuel) buf s s1 (array_header count) r
            ∙ steps
            ∙ ap
                (λ l.
                  continue size_of_frame limits fuel buf
                    (settle size_of_frame (array l) s.stack s' limits))
                (frames_of-list_of fs)),
      )

  nil-ArriveAll : ArriveAll nil
  unfolding encoded sizes costs list_of
  nil-ArriveAll n fuel s rest done below e sendable afforded at p =
      let rounds : n ≡ fuel = omega arith in
      (
        record s { stack = below },
        (refl, omega arith, p, refl, omega arith),
        rw (rounds, append-nil) refl,
      )

  cons-ArriveAll : (f : Frame) (fs : Frames) → Arrives f → ArriveAll fs → ArriveAll (cons f fs)
  unfolding encoded sizes costs list_of Sendable
  cons-ArriveAll f fs ih ihs n fuel s rest done below e (sendable, all) afforded at p =
      let top : PendingArray = record { remaining = suc (length (list_of fs)); elements = done } in
      let at_first : drop s.scan buf ≡ encoded f ++ (encoded_all fs ++ rest) =
        at ∙ append_assoc (encoded f) (encoded_all fs) rest in
      let (s1, (start1, scan1, whole1, stack1, memory1), steps1) =
        ih n (sizes fs + fuel) (record s { stack = top ∷ below }) (encoded_all fs ++ rest)
          (omega arith) sendable (omega arith) at_first p in
      let paid = s1.in_memory + (size_of_frame + payload_bytes f) in
      let s2 : Decoding = record s1 { in_memory = paid } in
      let (s', (at_start, scanned, whole, same_stack, memory), steps) =
        ihs (sizes fs + fuel) fuel s2 rest (done ++ (f ∷ [])) below refl all (omega arith)
          (ap (λ i. drop i buf) scan1
            ∙ drop_on s.scan buf (encoded f) (encoded_all fs ++ rest) at_first)
          whole1 in
      let scan_now : s'.scan ≡ s.scan + length (encoded f ++ encoded_all fs) =
        omega (arith, length-append (encoded f) (encoded_all fs)) in
      let memory_now : s'.in_memory ≡ s.in_memory + costs size_of_frame (cons f fs) = omega arith in
      let left : suc (length (list_of fs)) - 1 ≡ length (list_of fs) = omega arith in
      (
        s',
        (at_start ∙ start1, scan_now, whole, same_stack, memory_now),
        ap (continue size_of_frame limits n buf)
              (topped-unfilled size_of_frame limits top below (length (list_of fs)) s refl)
            ∙ steps1
            ∙ ap (continue size_of_frame limits (sizes fs + fuel) buf) (
                settle-topped size_of_frame limits f top below s1 small (omega arith)
                ∙ ap
                    (λ r.
                      topped size_of_frame limits
                        (record { remaining = r; elements = done ++ (f ∷ []) }) below s2)
                    left)
            ∙ steps
            ∙ ap
                (λ l.
                  continue size_of_frame limits fuel buf
                    (settle size_of_frame (array (frames_of l)) below s' limits))
                (append_assoc done (f ∷ []) (list_of fs)),
      )

  pub step-Arrives : (f : Frame) → Arrives f
  unfolding size inner Sendable payload_bytes
  step-Arrives f = elim f as Arrives ArriveAll [
    | simple text ↦ value-Arrives (simple text) refl refl (λ s rest (h, u) afforded at p.
        simple-IsRead size_of_frame limits buf s text rest h u (at, p))
    | error text ↦ value-Arrives (error text) refl refl (λ s rest (h, u) afforded at p.
        error-IsRead size_of_frame limits buf s text rest h u (at, p))
    | integer i ↦
        value-Arrives (integer i) refl refl
          (λ s rest h afforded at p. integer-IsRead size_of_frame limits buf s i rest h (at, p))
    | bulk b ↦ value-Arrives (bulk b) refl refl (λ s rest h afforded at p.
        bulk-IsRead size_of_frame limits buf s b rest small_buf small h (omega arith) (at, p))
    | null ↦
        value-Arrives null refl refl
          (λ s rest h afforded at p. null-IsRead size_of_frame limits buf s rest (at, p))
    | array (fs → ih) ↦ array-Arrives fs ih
    | nil ↦ nil-ArriveAll
    | cons (g → ih) (gs → ihs) ↦ cons-ArriveAll g gs ih ihs
  ]
