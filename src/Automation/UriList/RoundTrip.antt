-- ===== src/Automation/UriList/RoundTrip.antt =====
-- src/automation_dnd.rs: a reader of `text/uri-list` recovers the dropped paths.
use minde.Base.{
  ℕ, ◌+◌, ◌-◌, ◌*◌, ◌/◌, ◌%◌, ◌<◌, ◌≡◌, refl, ap, inl, inr, List, [], ◌∷◌, ◌++◌, append_assoc,
  Option, none, some, false, ◌&&◌, All, leb, ◌==◌, if◌then◌else◌, Bool-cases, arith,
}
use minde.Automation.UriList.{is_plain, hex_digit, encode_byte, percent_encode_path, crlf}

abbrev cons_to : ℕ → Option (List ℕ × List ℕ) → Option (List ℕ × List ℕ)
cons_to b none = none
cons_to b (some (path, rest)) = some (b ∷ path, rest)

-- An upper-case hexadecimal digit.
pub unhex : ℕ → Option ℕ
unhex c =
    if leb b'0' c && leb c b'9'
    then some (c - b'0')
    else if leb b'A' c && leb c b'F'
    then some (c - b'A' + 10)
    else none

abbrev cons_escaped : Option ℕ → Option ℕ → Option (List ℕ × List ℕ) → Option (List ℕ × List ℕ)
cons_escaped (some hi) (some lo) rest = cons_to (16 * hi + lo) rest
cons_escaped _ _ rest = none

-- The decoded bytes up to the line's end, and what follows it.
pub decode_line : List ℕ → Option (List ℕ × List ℕ)
unfolding unhex
decode_line [] = none
decode_line (c ∷ []) = none
decode_line (c ∷ a ∷ []) = if c == 13 && a == 10 then some ([], []) else none
decode_line (c ∷ a ∷ b ∷ rest) =
    let after_escape = decode_line rest in
    let after_plain = decode_line (a ∷ b ∷ rest) in
    if c == 13
    then if a == 10 then some ([], b ∷ rest) else none
    else if c == b'%'
    then cons_escaped (unhex a) (unhex b) after_escape
    else cons_to c after_plain

decode_end : (rest : List ℕ) → decode_line (13 ∷ 10 ∷ rest) ≡ some ([], rest)
unfolding decode_line
decode_end [] = refl
decode_end (x ∷ xs) = refl

decode_plain :
    (c : ℕ) (s path rest : List ℕ)
    → (c == 13) ≡ false
    → (c == b'%') ≡ false
    → decode_line s ≡ some (path, rest)
    → decode_line (c ∷ s) ≡ some (c ∷ path, rest)
unfolding decode_line
decode_plain c [] path rest e f h = cc
decode_plain c (a ∷ []) path rest e f h = cc
decode_plain c (a ∷ b ∷ s) path rest e f h = rw (e, f) (ap (cons_to c) h)

hex_unhex : (d : ℕ) → d < 16 → unhex (hex_digit d) ≡ some d
unfolding unhex hex_digit
hex_unhex d h = ground arith

decode_escaped :
    (b : ℕ) (s path rest : List ℕ)
    → b < 256
    → decode_line s ≡ some (path, rest)
    → decode_line (b'%' ∷ hex_digit (b / 16) ∷ hex_digit (b % 16) ∷ s) ≡ some (b ∷ path, rest)
unfolding decode_line
decode_escaped b s path rest h e =
    let split : 16 * (b / 16) + b % 16 ≡ b = omega arith in
    rw (hex_unhex (b / 16) (omega arith), hex_unhex (b % 16) (omega arith), e, split) refl

decode_byte :
    (b : ℕ) (s path rest : List ℕ)
    → b < 256
    → decode_line s ≡ some (path, rest)
    → decode_line (encode_byte b ++ s) ≡ some (b ∷ path, rest)
unfolding encode_byte
decode_byte b s path rest h e = elim (Bool-cases (is_plain b)) [
  | inl plain ↦ rw plain (decode_plain b s path rest (ground arith) (ground arith) e)
  | inr other ↦ rw other (decode_escaped b s path rest h e)
]

-- Decoding undoes the encoding of any path, whatever follows its line.
pub decode-percent_encode_path :
    (path rest : List ℕ)
    → All (λ b. b < 256) path
    → decode_line (percent_encode_path path ++ (crlf ++ rest)) ≡ some (path, rest)
unfolding percent_encode_path
decode-percent_encode_path [] rest h = decode_end rest
decode-percent_encode_path (b ∷ bs) rest h =
    rw (append_assoc (encode_byte b) (percent_encode_path bs) (crlf ++ rest))
      (decode_byte b _ bs rest h.0 (decode-percent_encode_path bs rest h.1))
