-- ===== src/Base64/RoundTrip.antt =====
-- Decoding what was encoded.
use familyfi.Base.{
  zero, ℕ, suc, ◌+◌, ◌-◌, ◌*◌, ◌/◌, ◌%◌, ◌^◌, ◌<◌, ◌≡◌, refl, ap, ◌∙◌, Bool, true, false, not, ◌&&◌,
  Option, none, some, List, [], ◌∷◌, All, arith, leb, ◌==◌, Text, length, inl, inr, Bool-cases,
}
use familyfi.Base64.{
  alphabet_char, lookup, index_from, char_of, encode, padding, strip_padding, with_byte,
  decode_from, decode,
}

-- The first `n` numbers pass the test.
abbrev holds_below : (ℕ → Bool) → ℕ → Bool
holds_below f zero = true
holds_below f (suc n) = f n && holds_below f n

holds_below_sound : (f : ℕ → Bool) (n m : ℕ) → holds_below f n ≡ true → m < n → f m ≡ true
holds_below_sound f zero m h l = absurd (omega arith)
holds_below_sound f (suc n) m h l = elim (Bool-cases (m == n)) [
  | inl same ↦ let e : m ≡ n = ground arith in let h' : f n ≡ true = ground arith in rw e h'
  | inr apart ↦ holds_below_sound f n m (ground arith) (ground arith)
]

abbrev is_index : ℕ → Option ℕ → Bool
is_index n none = false
is_index n (some m) = m == n

is_index_sound : (n : ℕ) (o : Option ℕ) → is_index n o ≡ true → o ≡ some n
is_index_sound n none e = absurd (cc)
is_index_sound n (some m) e = ap some (ground arith)

lookup_all : holds_below (λ n. is_index n (lookup (alphabet_char n))) 64 ≡ true
unfolding lookup index_from alphabet_char
lookup_all = refl

lookup-alphabet_char : (n : ℕ) → n < 64 → lookup (alphabet_char n) ≡ some n
lookup-alphabet_char n l =
    is_index_sound n (lookup (alphabet_char n))
      (holds_below_sound (λ n. is_index n (lookup (alphabet_char n))) 64 n lookup_all l)

not-padding_all : holds_below (λ n. not (alphabet_char n == padding)) 64 ≡ true
unfolding alphabet_char
not-padding_all = refl

-- One character read back.
decode_from-char_of :
    (chunk shift : ℕ) (chars : Text) (buffer bits : ℕ)
    → decode_from (char_of chunk shift ∷ chars) buffer bits ≡ (
        let filled = (buffer * 64 + chunk / 2 ^ shift % 64) % 2 ^ 32 in
        elim (leb 8 (bits + 6)) [
          | true ↦
              with_byte
                (filled / 2 ^ (bits + 6 - 8) % 256)
                (decode_from chars filled (bits + 6 - 8))
          | false ↦ decode_from chars filled (bits + 6)
        ])
unfolding decode_from char_of
decode_from-char_of chunk shift chars buffer bits =
    rw (lookup-alphabet_char (chunk / 2 ^ shift % 64) (omega arith), decode_from) refl

first_byte :
    (chunk buffer : ℕ)
    → (((buffer * 64 + chunk / 262144 % 64) % 4294967296 * 64 + chunk / 4096 % 64)
          % 4294967296
          / 16)
        % 256
      ≡ chunk / 65536 % 256
first_byte chunk buffer = omega arith

second_byte :
    (chunk buffer : ℕ)
    → (((buffer * 64 + chunk / 4096 % 64) % 4294967296 * 64 + chunk / 64 % 64) % 4294967296 / 4)
        % 256
      ≡ chunk / 256 % 256
second_byte chunk buffer = omega arith

third_byte :
    (chunk buffer : ℕ)
    → (((buffer * 64 + chunk / 64 % 64) % 4294967296 * 64 + chunk / 1 % 64) % 4294967296 / 1) % 256
      ≡ chunk % 256
third_byte chunk buffer = omega arith

-- What the buffer holds after a character.
abbrev filled : ℕ → ℕ → ℕ → ℕ
filled chunk shift buffer = (buffer * 64 + chunk / 2 ^ shift % 64) % 2 ^ 32

-- Two characters give the first byte and leave four bits, three the second and two bits, four the
-- third and none.
two_chars :
    (chunk buffer : ℕ) (chars : Text)
    → decode_from (char_of chunk 18 ∷ char_of chunk 12 ∷ chars) buffer 0
      ≡ with_byte
          (chunk / 65536 % 256)
          (decode_from chars (filled chunk 12 (filled chunk 18 buffer)) 4)
two_chars chunk buffer chars =
    decode_from-char_of chunk 18 (char_of chunk 12 ∷ chars) buffer 0
    ∙ decode_from-char_of chunk 12 chars (filled chunk 18 buffer) 6
    ∙ ap (λ byte. with_byte byte (decode_from chars (filled chunk 12 (filled chunk 18 buffer)) 4))
        (first_byte chunk buffer)

third_char :
    (chunk buffer : ℕ) (chars : Text)
    → decode_from (char_of chunk 6 ∷ chars) (filled chunk 12 buffer) 4
      ≡ with_byte
          (chunk / 256 % 256)
          (decode_from chars (filled chunk 6 (filled chunk 12 buffer)) 2)
third_char chunk buffer chars =
    decode_from-char_of chunk 6 chars (filled chunk 12 buffer) 4
    ∙ ap (λ byte. with_byte byte (decode_from chars (filled chunk 6 (filled chunk 12 buffer)) 2))
        (second_byte chunk buffer)

fourth_char :
    (chunk buffer : ℕ) (chars : Text)
    → decode_from (char_of chunk 0 ∷ chars) (filled chunk 6 buffer) 2
      ≡ with_byte (chunk % 256) (decode_from chars (filled chunk 0 (filled chunk 6 buffer)) 0)
fourth_char chunk buffer chars =
    decode_from-char_of chunk 0 chars (filled chunk 6 buffer) 2
    ∙ ap (λ byte. with_byte byte (decode_from chars (filled chunk 0 (filled chunk 6 buffer)) 0))
        (third_byte chunk buffer)

abbrev pub IsByte : ℕ → Type 0
IsByte n = n < 256

decode_from-encode :
    (bytes : List ℕ) (buffer : ℕ)
    → All IsByte bytes
    → decode_from (encode bytes) buffer 0 ≡ some bytes
unfolding encode decode_from
decode_from-encode [] buffer h = refl
decode_from-encode (a ∷ []) buffer (la, h) =
    two_chars (a * 65536) buffer []
    ∙ ap (λ byte. some (byte ∷ [])) (let e : a * 65536 / 65536 % 256 ≡ a = omega arith in e)
decode_from-encode (a ∷ b ∷ []) buffer (la, (lb, h)) =
    let chunk = a * 65536 + b * 256 in
    let ea : chunk / 65536 % 256 ≡ a = omega arith in
    let eb : chunk / 256 % 256 ≡ b = omega arith in
    two_chars chunk buffer (char_of chunk 6 ∷ [])
    ∙ ap (with_byte (chunk / 65536 % 256)) (third_char chunk (filled chunk 18 buffer) [])
    ∙ rw (ea, eb) refl
decode_from-encode (a ∷ b ∷ c ∷ bytes) buffer (la, (lb, (lc, h))) =
    let chunk = a * 65536 + b * 256 + c in
    let ea : chunk / 65536 % 256 ≡ a = omega arith in
    let eb : chunk / 256 % 256 ≡ b = omega arith in
    let ec : chunk % 256 ≡ c = omega arith in
    let second = filled chunk 12 (filled chunk 18 buffer) in
    let rest = decode_from-encode bytes (filled chunk 0 (filled chunk 6 second)) h in
    two_chars chunk buffer (char_of chunk 6 ∷ char_of chunk 0 ∷ encode bytes)
    ∙ ap (with_byte (chunk / 65536 % 256)) (
        third_char chunk (filled chunk 18 buffer) (char_of chunk 0 ∷ encode bytes)
        ∙ ap (with_byte (chunk / 256 % 256)) (fourth_char chunk second (encode bytes)))
    ∙ rw (ea, eb, ec, rest) refl

strip_padding-cons :
    (c : ℕ) (cs : Text)
    → (c == padding) ≡ false
    → strip_padding cs ≡ cs
    → strip_padding (c ∷ cs) ≡ c ∷ cs
unfolding strip_padding
strip_padding-cons c cs h e = rw e (ground arith)

char_of_ne : (chunk shift : ℕ) → (char_of chunk shift == padding) ≡ false
unfolding char_of
char_of_ne chunk shift =
    let h =
      holds_below_sound (λ n. not (alphabet_char n == padding)) 64 (chunk / 2 ^ shift % 64)
        not-padding_all (omega arith) in
    ground arith

four_longer : (n : ℕ) → (n % 4 == 1) ≡ false → (suc (suc (suc (suc n))) % 4 == 1) ≡ false
four_longer n h = let e : suc (suc (suc (suc n))) % 4 ≡ n % 4 = omega arith in rw e h

-- No padding is taken off, and the length is not one that decoding refuses.
encode-HasLength : (bytes : List ℕ) → (length (encode bytes) % 4 == 1) ≡ false
unfolding encode
encode-HasLength [] = refl
encode-HasLength (a ∷ []) = refl
encode-HasLength (a ∷ b ∷ []) = refl
encode-HasLength (a ∷ b ∷ c ∷ bytes) = four_longer (length (encode bytes)) (encode-HasLength bytes)

strip_padding-encode : (bytes : List ℕ) → strip_padding (encode bytes) ≡ encode bytes
unfolding encode strip_padding
strip_padding-encode [] = refl
strip_padding-encode (a ∷ []) =
    let chunk = a * 65536 in
    strip_padding-cons _ _ (char_of_ne chunk 18) (strip_padding-cons _ _ (char_of_ne chunk 12) refl)
strip_padding-encode (a ∷ b ∷ []) =
    let chunk = a * 65536 + b * 256 in
    strip_padding-cons _ _ (char_of_ne chunk 18) (
      strip_padding-cons _ _ (char_of_ne chunk 12)
        (strip_padding-cons _ _ (char_of_ne chunk 6) refl))
strip_padding-encode (a ∷ b ∷ c ∷ bytes) =
    let chunk = a * 65536 + b * 256 + c in
    strip_padding-cons _ _ (char_of_ne chunk 18) (
      strip_padding-cons _ _ (char_of_ne chunk 12) (
        strip_padding-cons _ _ (char_of_ne chunk 6)
          (strip_padding-cons _ _ (char_of_ne chunk 0) (strip_padding-encode bytes))))

-- Decoding the base64url text of bytes gives the same bytes: of any number of them, none included.
pub decode-encode : (bytes : List ℕ) → All IsByte bytes → decode (encode bytes) ≡ some bytes
unfolding decode
decode-encode bytes h =
    rw (strip_padding-encode bytes, encode-HasLength bytes) (decode_from-encode bytes 0 h)
