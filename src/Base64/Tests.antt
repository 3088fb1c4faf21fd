-- ===== src/Base64/Tests.antt =====
-- Bytes whose text needs padding elsewhere, and their text with it.
use familyfi.Base.{arith, ◌≡◌, refl, some, [], ◌∷◌, codes}
use familyfi.Base64.{
  encode, decode, char_of, alphabet_char, strip_padding, decode_from, lookup, index_from,
}
use familyfi.Base64.RoundTrip.{decode-encode}

encode_run : encode (77 ∷ 97 ∷ 110 ∷ 255 ∷ []) ≡ codes "TWFu_w"
unfolding encode char_of alphabet_char
encode_run = refl

decode_run : decode (codes "TWFu_w==") ≡ some (77 ∷ 97 ∷ 110 ∷ 255 ∷ [])
unfolding decode strip_padding decode_from lookup index_from
decode_run = refl

decode-encode_example : decode (encode (0 ∷ 255 ∷ [])) ≡ some (0 ∷ 255 ∷ [])
decode-encode_example = decode-encode (0 ∷ 255 ∷ []) (omega arith, (omega arith, tt))
