-- ===== src/Edge/Http3/Bodies/Hex.antt =====
-- Reading the size of a chunk (RFC 9112, section 7.1) as sendBody prints it.
use coen.Base.{
  ℕ, zero, suc, ◌+◌, ◌*◌, ◌-◌, ◌/◌, ◌%◌, ◌<◌, ◌≡◌, ap, ◌∙◌, Bool, ◌&&◌, ◌||◌, [], ◌∷◌, ◌++◌,
  if◌then◌else◌, ltb, leb, arith, Bytes, append_assoc, Bool-cases, inl, inr,
}
use coen.Edge.Http3.Bodies.{hex_digit, hex}

abbrev pub is_hex : ℕ → Bool
is_hex c = leb b'0' c && leb c b'9' || leb b'a' c && leb c b'f'

abbrev pub hex_value : ℕ → ℕ
hex_value c = if leb c b'9' then c - b'0' else c - b'a' + 10

unfoldable pub read_hex : Bytes → ℕ → ℕ × Bytes
read_hex [] acc = (acc, [])
read_hex (c ∷ s) acc = if is_hex c then read_hex s (acc * 16 + hex_value c) else (acc, c ∷ s)

abbrev pub hex_limit : ℕ → ℕ
hex_limit zero = 16
hex_limit (suc f) = hex_limit f * 16

read_digit :
    (d acc : ℕ) (s : Bytes) → d < 16 → read_hex (hex_digit d ∷ s) acc ≡ read_hex s (acc * 16 + d)
unfolding read_hex hex_digit
read_digit d acc s h = ground arith

pub read_hex-hex :
    (f n : ℕ) (s : Bytes) → n < hex_limit f → read_hex (hex f n ++ s) 0 ≡ read_hex s n
unfolding hex
read_hex-hex zero n s h = read_digit (n % 16) 0 s (omega arith) ∙ ap (read_hex s) (omega arith)
read_hex-hex (suc f) n s h = elim (Bool-cases (ltb n 16)) [
  | inl e ↦ rw e (read_digit n 0 s (ground arith) ∙ ap (read_hex s) (omega arith))
  | inr e ↦ rw e (
      ap (λ b. read_hex b 0) (append_assoc (hex f (n / 16)) (hex_digit (n % 16) ∷ []) s)
      ∙ read_hex-hex f (n / 16) (hex_digit (n % 16) ∷ s) (omega arith)
      ∙ read_digit (n % 16) (n / 16) s (omega arith)
      ∙ ap (read_hex s) (omega arith))
]
