-- ===== src/Tests/RespRuns.antt =====
-- Runs of crates/seedstone-resp/src/lib.rs.
use seedstone.Base.{
  ℕ, ◌≡◌, ◌≤◌, ◌<◌, ◌^◌, refl, arith, Option, some, none, Result, ok, err, ℤ, pos, negsuc, List, [],
  ◌∷◌, ◌++◌, Bytes, codes, length,
}
use seedstone.Resp.{
  Frame, simple, integer, bulk, null, array, nil, cons, encode, crlf, signed, list_of,
}
use seedstone.Resp.Encoding.{encoded, encode_lem}
use seedstone.Resp.Field.{parse_i64, ParseError, unknown_type_byte, invalid_integer}
use seedstone.Resp.Verdict.{parse-append, parse_error-append}
use seedstone.Resp.Decoder.{default_limits, payload_bytes}
use seedstone.Resp.Machine.{parse, Decoder, new, feed, try_next}
use seedstone.Resp.Number.{parse_i64-signed}
use seedstone.Resp.Sendable.{Sendable, inner, whole_cost}
use seedstone.Resp.RoundTrip.{Fits, IsReady, parse-encode}
use seedstone.Resp.Stream.{wires, Delivers, feed-Delivers}
use seedstone.Resp.Bounds.{parse_bounds, encode-parse}
use seedstone.Resp.Termination.{try_next_returns}

abbrev ping : Frame
ping =
    array
      (cons (bulk (codes "GET")) (cons (array nil) (cons (integer (negsuc 41)) (cons null nil))))

abbrev wire : Bytes
wire =
    codes "*4"
    ++ crlf
    ++ codes "$3"
    ++ crlf
    ++ codes "GET"
    ++ crlf
    ++ codes "*0"
    ++ crlf
    ++ codes ":-42"
    ++ crlf
    ++ codes "$-1"
    ++ crlf

encode-ping : encode ping [] ≡ some wire
unfolding encode seedstone.Base.decimal
encode-ping = refl

parse-ping : parse 32 (crlf ++ wire ++ codes "+OK") ≡ some (ok (some (ping, 30)))
unfolding parse parse_i64 seedstone.Base.all_digits seedstone.Base.is_utf8
    seedstone.Base.digits_value
parse-ping = refl

-- A lone CR does not end the text of a line.
parse-lone_cr :
    parse 32 (codes "+a" ++ 13 ∷ (codes "b" ++ crlf))
    ≡ some (ok (some (simple (97 ∷ 13 ∷ 98 ∷ []), 6)))
unfolding parse parse_i64 seedstone.Base.all_digits seedstone.Base.is_utf8
    seedstone.Base.digits_value
parse-lone_cr = refl

encode_lem_example : encode ping [] ≡ some ([] ++ encoded ping)
encode_lem_example = encode_lem ping []

ping-Fits : Fits 32 default_limits ping
unfolding Sendable inner encoded seedstone.Base.decimal payload_bytes list_of signed
ping-Fits = (
  (
    omega arith,
    omega arith,
    (omega arith, ((omega arith, omega arith, tt), (omega arith, (tt, tt)))),
  ),
  omega arith,
  omega arith,
)

parse-encode_example : parse 32 (wire ++ codes "+OK") ≡ some (ok (some (ping, length wire)))
parse-encode_example = parse-encode 32 ping wire (codes "+OK") encode-ping ping-Fits (omega arith)

parse_bounds_example : Sendable 0 ping × (whole_cost 32 ping ≤ default_limits.max_in_memory)
parse_bounds_example = parse_bounds 32 (crlf ++ wire ++ codes "+OK") ping 30 parse-ping

encode-parse_example : parse 32 (wire ++ codes "+OK") ≡ some (ok (some (ping, length wire)))
encode-parse_example =
    encode-parse 32 (crlf ++ wire ++ codes "+OK") ping 30 wire (codes "+OK") parse-ping encode-ping
      (omega arith) (omega arith)

small_wire : length (wires (ping ∷ [])) < 2 ^ 64
unfolding encoded seedstone.Base.decimal list_of signed
small_wire = omega arith

feed-Delivers_example :
    (last : Decoder) × Delivers 32 (feed (wires (ping ∷ [])) (new default_limits)) (ping ∷ []) last
    × IsReady 32 last []
    × (last.buf ≡ [])
feed-Delivers_example =
    feed-Delivers 32 (ping ∷ []) (new default_limits) (refl, refl, refl, refl, refl) (omega arith)
      (ping-Fits, tt) small_wire

try_next_returns_example :
    (r : Result (Option Frame) ParseError) × (d : Decoder) × (try_next 32
        (feed wire (new default_limits))
      ≡ some (r, d))
try_next_returns_example = try_next_returns 32 (feed wire (new default_limits))

parse_i64-signed_example : parse_i64 (signed (negsuc 41)) ≡ ok (negsuc 41)
parse_i64-signed_example = parse_i64-signed (negsuc 41) (omega arith)

parse-append_example :
    parse 32 ((crlf ++ wire ++ codes "+OK") ++ crlf) ≡ some (ok (some (ping, 30)))
parse-append_example = parse-append 32 (crlf ++ wire ++ codes "+OK") crlf ping 30 parse-ping

parse_junk : parse 32 (codes "?") ≡ some (err (unknown_type_byte 63))
unfolding parse
parse_junk = refl

parse_error-append_example : parse 32 (codes "?" ++ crlf) ≡ some (err (unknown_type_byte 63))
parse_error-append_example =
    parse_error-append 32 (codes "?") crlf (unknown_type_byte 63) parse_junk (λ e. cc)

-- A field that no continuation makes an integer is waited for until its line ends.
parse_open_field : parse 32 (codes ":x") ≡ some (ok none)
unfolding parse
parse_open_field = refl

parse_closed_field : parse 32 (codes ":x" ++ crlf) ≡ some (err (invalid_integer (codes "x")))
unfolding parse parse_i64 seedstone.Base.all_digits seedstone.Base.is_utf8
    seedstone.Base.digits_value
parse_closed_field = refl
