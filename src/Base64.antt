-- ===== src/Base64.antt =====
-- lib/base64url.ts: `base64UrlEncode` and `base64UrlDecode`, over bytes as numbers and text as its
-- code units. The UTF-8 functions beside them call the runtime's encoder.
pub mod RoundTrip
mod Tests
use familyfi.Base.{
  ℕ, zero, suc, ◌+◌, ◌-◌, ◌*◌, ◌/◌, ◌%◌, ◌^◌, Bool, true, false, ◌&&◌, Option, none, some, List, [],
  ◌∷◌, leb, ◌==◌, if◌then◌else◌, Text, codes, length, get_elem?, or_else,
}

abbrev pub alphabet : Text
alphabet = codes "ABCDEFGHIJKLMNOPQRSTUVWXYZabcdefghijklmnopqrstuvwxyz0123456789-_"

-- `ALPHABET[n]`, of a number below 64.
alphabet_char : ℕ → ℕ
alphabet_char n = or_else (get_elem? alphabet n) 0

-- `LOOKUP.get(char)`, from a position of the alphabet on.
index_from : ℕ → Text → ℕ → Option ℕ
index_from n [] char = none
index_from n (c ∷ cs) char = if c == char then some n else index_from (suc n) cs char

lookup : ℕ → Option ℕ
unfolding index_from
lookup char = index_from 0 alphabet char

-- `(chunk >> (18 - 6 * j)) & 63` in the alphabet.
char_of : ℕ → ℕ → ℕ
unfolding alphabet_char
char_of chunk shift = alphabet_char (chunk / 2 ^ shift % 64)

-- The loop over three bytes at a time; a byte that is not there counts as 0.
pub encode : List ℕ → Text
unfolding char_of
encode [] = []
encode (a ∷ []) = let chunk = a * 65536 in char_of chunk 18 ∷ char_of chunk 12 ∷ []
encode (a ∷ b ∷ []) =
    let chunk = a * 65536 + b * 256 in char_of chunk 18 ∷ char_of chunk 12 ∷ char_of chunk 6 ∷ []
encode (a ∷ b ∷ c ∷ bytes) =
    let chunk = a * 65536 + b * 256 + c in
    char_of chunk 18 ∷ char_of chunk 12 ∷ char_of chunk 6 ∷ char_of chunk 0 ∷ encode bytes

abbrev padding : ℕ
padding = 61

abbrev is_nil : Text → Bool
is_nil [] = true
is_nil (c ∷ cs) = false

-- `value.replace(/=+$/, "")`.
strip_padding : Text → Text
strip_padding [] = []
strip_padding (c ∷ cs) =
    let rest = strip_padding cs in if is_nil rest && c == padding then [] else c ∷ rest

abbrev with_byte : ℕ → Option (List ℕ) → Option (List ℕ)
with_byte byte none = none
with_byte byte (some bytes) = some (byte ∷ bytes)

-- The loop over the characters; the buffer is a 32-bit integer, here as what is left of it modulo
-- `2 ^ 32`.
decode_from : Text → ℕ → ℕ → Option (List ℕ)
unfolding lookup
decode_from [] buffer bits = some []
decode_from (char ∷ chars) buffer bits = elim (lookup char) [
  | none ↦ none
  | some index ↦
      let filled = (buffer * 64 + index) % 2 ^ 32 in
      elim (leb 8 (bits + 6)) [
        | true ↦
            with_byte (filled / 2 ^ (bits + 6 - 8) % 256) (decode_from chars filled (bits + 6 - 8))
        | false ↦ decode_from chars filled (bits + 6)
      ]
]

-- `base64UrlDecode`.
pub decode : Text → Option (List ℕ)
unfolding strip_padding decode_from
decode value =
    let unpadded = strip_padding value in
    if length unpadded % 4 == 1 then none else decode_from unpadded 0 0
