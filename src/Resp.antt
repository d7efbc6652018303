-- ===== src/Resp.antt =====
-- crates/seedstone-resp/src/lib.rs: frames of the protocol, and the encoder.
pub mod Encoding
pub mod Field
pub mod Decoder
pub mod Reader
pub mod Machine
pub mod Line
pub mod Number
pub mod Elements
pub mod Resume
pub mod Progress
pub mod Termination
pub mod Held
pub mod Delivery
pub mod Reading
pub mod Bounds
pub mod Append
pub mod Verdict
pub mod Sendable
pub mod Rounds
pub mod Arrival
pub mod RoundTrip
pub mod Stream
use seedstone.Base.{
  ℕ, zero, suc, ◌+◌, ℤ, pos, negsuc, Bytes, codes, decimal, Option, none, some, List, [], ◌∷◌, ◌++◌,
  length,
}

-- A text is its bytes. A list of frames is a type of its own, as frames hold such lists.
mutual
  pub data Frame : Type 0 where
    simple : Bytes → Frame
    error : Bytes → Frame
    integer : ℤ → Frame
    bulk : Bytes → Frame
    null : Frame
    array : Frames → Frame

  pub data Frames : Type 0 where
    nil : Frames
    cons : Frame → Frames → Frames

unfoldable pub list_of : Frames → List Frame
list_of nil = []
list_of (cons f fs) = f ∷ list_of fs

unfoldable pub frames_of : List Frame → Frames
frames_of [] = nil
frames_of (f ∷ fs) = cons f (frames_of fs)

abbrev pub crlf : Bytes
crlf = 13 ∷ 10 ∷ []

-- `to_string` of an `i64`
unfoldable pub signed : ℤ → Bytes
signed (pos n) = decimal n
signed (negsuc n) = b'-' ∷ decimal (suc n)

abbrev pub line : ℕ → Bytes → Bytes
line type_byte text = type_byte ∷ (text ++ crlf)

-- What `encode_one` appends to `out`, and the stack of pending frames that it leaves, the top
-- first, as in a release build: a debug build also asserts that the two kinds of text hold no CR
-- and no LF, and panics where one does.
unfoldable pub encode_one : Frame → Bytes → List Frame → Bytes × List Frame
unfolding list_of signed
encode_one (simple s) out pending = (out ++ line b'+' s, pending)
encode_one (error e) out pending = (out ++ line b'-' e, pending)
encode_one (integer i) out pending = (out ++ line b':' (signed i), pending)
encode_one (bulk b) out pending = (out ++ (line b'$' (decimal (length b)) ++ (b ++ crlf)), pending)
encode_one null out pending = (out ++ line b'$' (codes "-1"), pending)
encode_one (array frames) out pending =
    (out ++ line b'*' (decimal (length (list_of frames))), list_of frames ++ pending)

-- `while let Some(frame) = pending.pop()`, on fuel: `none` is no fuel left.
unfoldable pub encode_loop : ℕ → List Frame → Bytes → Option Bytes
unfolding encode_one
encode_loop fuel [] out = some out
encode_loop zero (frame ∷ pending) out = none
encode_loop (suc fuel) (frame ∷ pending) out =
    let (out', pending') = encode_one frame out pending in encode_loop fuel pending' out'

-- The number of frames within a frame, which is the number of rounds.
unfoldable mutual
  pub size : Frame → ℕ
  size (simple s) = 1
  size (error e) = 1
  size (integer i) = 1
  size (bulk b) = 1
  size null = 1
  size (array frames) = suc (sizes frames)

  pub sizes : Frames → ℕ
  sizes nil = 0
  sizes (cons f fs) = size f + sizes fs

unfoldable pub encode : Frame → Bytes → Option Bytes
unfolding encode_loop size
encode frame out = encode_loop (size frame) (frame ∷ []) out
