-- ===== src/Tests/LogRuns.antt =====
-- Runs of crates/seedstone-core/src/log/effect.rs.
use seedstone.Base.{◌≡◌, refl, arith, some, none, [], ◌∷◌, Bytes, codes, length}
use seedstone.Log.Effect.{Effect, put, encode, encoded_len, decode}
use seedstone.Log.Effect.Codec.{decode-encode, length-encode}
use seedstone.Log.Effect.Canonical.{encode-decode}

abbrev put_k : Effect
put_k = put (codes "k") [] (some 258)

abbrev put_k_payload : Bytes
put_k_payload = 1 ∷ 1 ∷ 0 ∷ 0 ∷ 0 ∷ 107 ∷ 0 ∷ 0 ∷ 0 ∷ 0 ∷ 1 ∷ 2 ∷ 1 ∷ 0 ∷ 0 ∷ 0 ∷ 0 ∷ 0 ∷ 0 ∷ []

written : encode put_k ≡ some put_k_payload
unfolding encode
written = refl

read_back : decode put_k_payload ≡ some put_k
unfolding decode
read_back = refl

trailing_byte : decode (4 ∷ 0 ∷ []) ≡ none
unfolding decode
trailing_byte = refl

decode-encode_example : decode put_k_payload ≡ some put_k
decode-encode_example = decode-encode put_k put_k_payload (omega arith) written

length-encode_example : length put_k_payload ≡ encoded_len put_k
length-encode_example = length-encode put_k put_k_payload written

encode-decode_example : encode put_k ≡ some put_k_payload
encode-decode_example = encode-decode put_k_payload put_k (omega arith) read_back
