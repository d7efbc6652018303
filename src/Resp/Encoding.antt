-- ===== src/Resp/Encoding.antt =====
-- The encoder of lib.rs against a recursive description of the wire format.
use seedstone.Base.{
  ℕ, suc, ◌+◌, ◌≡◌, refl, ap, ◌∙◌, Bytes, codes, decimal, some, List, [], ◌∷◌, ◌++◌, length,
  append_assoc, append-nil, arith,
}
use seedstone.Resp.{
  Frame, Frames, simple, error, integer, bulk, null, array, nil, cons, list_of, signed, line, crlf,
  encode_one, encode_loop, encode, size, sizes,
}

-- The wire form of a frame.
unfoldable mutual
  unfolding list_of

  pub encoded : Frame → Bytes
  encoded (simple s) = line b'+' s
  encoded (error e) = line b'-' e
  encoded (integer i) = line b':' (signed i)
  encoded (bulk b) = line b'$' (decimal (length b)) ++ (b ++ crlf)
  encoded null = line b'$' (codes "-1")
  encoded (array frames) = line b'*' (decimal (length (list_of frames))) ++ encoded_all frames

  pub encoded_all : Frames → Bytes
  encoded_all nil = []
  encoded_all (cons f fs) = encoded f ++ encoded_all fs

abbrev Emits : Frame → Type 0
Emits f =
    (n fuel : ℕ) (pending : List Frame) (out : Bytes)
    → n ≡ size f + fuel
    → encode_loop n (f ∷ pending) out ≡ encode_loop fuel pending (out ++ encoded f)

abbrev EmitsAll : Frames → Type 0
EmitsAll fs =
    (n fuel : ℕ) (pending : List Frame) (out : Bytes)
    → n ≡ sizes fs + fuel
    → encode_loop n (list_of fs ++ pending) out ≡ encode_loop fuel pending (out ++ encoded_all fs)

one_round :
    (f : Frame) (n fuel : ℕ) (pending : List Frame) (out : Bytes)
    → n ≡ suc fuel
    → encode_loop n (f ∷ pending) out
      ≡ encode_loop fuel (encode_one f out pending).1 (encode_one f out pending).0
unfolding encode_loop
one_round f n fuel pending out e = rw e refl

encode_loop_lem : (f : Frame) → Emits f
unfolding size encoded encode_one
encode_loop_lem f = elim f as Emits EmitsAll [
  | simple s ↦ λ n fuel pending out e. one_round (simple s) n fuel pending out (omega arith)
  | error s ↦ λ n fuel pending out e. one_round (error s) n fuel pending out (omega arith)
  | integer i ↦ λ n fuel pending out e. one_round (integer i) n fuel pending out (omega arith)
  | bulk b ↦ λ n fuel pending out e. one_round (bulk b) n fuel pending out (omega arith)
  | null ↦ λ n fuel pending out e. one_round null n fuel pending out (omega arith)
  | array (fs → ih) ↦ λ n fuel pending out e.
      one_round (array fs) n (sizes fs + fuel) pending out (omega arith)
      ∙ ih (sizes fs + fuel) fuel pending (out ++ line b'*' (decimal (length (list_of fs)))) refl
      ∙ ap (encode_loop fuel pending)
          (append_assoc out (line b'*' (decimal (length (list_of fs)))) (encoded_all fs))
  | nil ↦ λ n fuel pending out e. let same : n ≡ fuel = omega arith in rw (same, append-nil) refl
  | cons (g → ih) (gs → ihs) ↦ λ n fuel pending out e.
      ih n (sizes gs + fuel) (list_of gs ++ pending) out (omega arith)
      ∙ ihs (sizes gs + fuel) fuel pending (out ++ encoded g) refl
      ∙ ap (encode_loop fuel pending) (append_assoc out (encoded g) (encoded_all gs))
]

-- The encoder's loop over its stack of pending frames ends, and has appended the wire form of the
-- frame, which is defined by recursion on it.
pub encode_lem : (f : Frame) (out : Bytes) → encode f out ≡ some (out ++ encoded f)
unfolding encode encode_loop
encode_lem f out = encode_loop_lem f (size f) 0 [] out (omega arith)
