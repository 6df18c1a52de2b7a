-- ===== src/Webhook/Hex.antt =====
-- `encoding/hex`: bytes as lower-case digits, and back from digits of either case.
use Prim.Native.Char.{Char, code}
use Prim.Native.String.{[], ◌∷◌}
use cloud_agent.Common.{
  char_at, Bool, true, false, nat_eq, zero, suc, ap, ℕ, ◌+◌, ◌-◌, ◌*◌, ◌/◌, ◌%◌, ◌<◌, leb, String,
  Option, none, some, List, ◌≡◌, refl, arith, ◌&&◌, if◌then◌else◌, All,
}

hex_digit : ℕ → Char
unfolding char_at
hex_digit n = char_at "0123456789abcdef" n

-- `hex.EncodeToString`
unfoldable pub encode_hex : List ℕ → String
unfolding hex_digit
encode_hex List.[] = ""
encode_hex (List.◌∷◌ b bs) = hex_digit (b / 16) ∷ hex_digit (b % 16) ∷ encode_hex bs

digit_value : ℕ → Option ℕ
digit_value c =
    if leb b'0' c && leb c b'9'
    then some (c - b'0')
    else if leb b'a' c && leb c b'f'
    then some (c - b'a' + 10)
    else if leb b'A' c && leb c b'F'
    then some (c - b'A' + 10)
    else none

byte_of : Option ℕ → Option ℕ → Option (List ℕ) → Option (List ℕ)
byte_of (some hi) (some lo) (some bs) = some (List.◌∷◌ (hi * 16 + lo) bs)
byte_of _ _ _ = none

-- `hex.DecodeString`, with `none` for an odd length or another character
unfoldable pub decode_hex : String → Option (List ℕ)
unfolding digit_value byte_of
decode_hex [] = some List.[]
decode_hex (c ∷ []) = none
decode_hex (c ∷ d ∷ s) = byte_of (digit_value (code c)) (digit_value (code d)) (decode_hex s)

is_some_of : Option ℕ → ℕ → Bool
is_some_of none n = false
is_some_of (some m) n = nat_eq m n

is_some_of_sound : (o : Option ℕ) (n : ℕ) → is_some_of o n ≡ true → o ≡ some n
unfolding is_some_of
is_some_of_sound none n h = cc
is_some_of_sound (some m) n h = ground arith

reads : ℕ → Bool
reads d = is_some_of (digit_value (code (hex_digit d))) d

-- whether each digit below a bound is read as it was written
all_read : ℕ → Bool
all_read zero = true
all_read (suc d) = reads d && all_read d

all_read-reads : {d : ℕ} (bound : ℕ) → d < bound → all_read bound ≡ true → reads d ≡ true
unfolding all_read
all_read-reads zero below table = absurd (omega arith)
all_read-reads {d} (suc last) below table = ground (arith, all_read-reads {d = d} last)

sixteen_read : all_read 16 ≡ true
unfolding all_read reads is_some_of digit_value hex_digit
sixteen_read = refl

digit_value-hex_digit : (n : ℕ) → n < 16 → digit_value (code (hex_digit n)) ≡ some n
unfolding reads
digit_value-hex_digit n h = is_some_of_sound _ n (all_read-reads 16 h sixteen_read)

-- Decoding hexadecimal digits gives back the bytes that were encoded.
pub decode_hex-encode_hex :
    (bs : List ℕ) → All (λ b. b < 256) bs → decode_hex (encode_hex bs) ≡ some bs
unfolding decode_hex encode_hex
decode_hex-encode_hex List.[] h = refl
decode_hex-encode_hex (List.◌∷◌ b bs) (small, h) =
    rw
      (
        digit_value-hex_digit (b / 16) (omega arith),
        digit_value-hex_digit (b % 16) (omega arith),
        decode_hex-encode_hex bs h,
      )
      (ap (λ n. some (List.◌∷◌ n bs)) (omega arith))
