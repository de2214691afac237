-- ===== src/Util/Address.antt =====
-- `ip_str_to_num` and `ip_num_to_str` of util/util.cpp. The tokenizer is boost's, and its tokens are
-- an argument; `atoi` is an argument too. `a << 8` on 32 bits is `a * 256 % 2 ^ 32`.
use spatter.Prelude.{ℕ, ◌+◌, ◌*◌, ◌/◌, ◌%◌, ◌^◌, ◌<◌, ◌≡◌, List, [], ◌∷◌, arith}

-- The loop over the tokens; `(uint8_t)` keeps the low byte, and the `|` fills the bits that the
-- shift has cleared, so it is a sum.
add_tokens : (List ℕ → ℕ) → List (List ℕ) → ℕ → ℕ
add_tokens atoi [] addr = addr
add_tokens atoi (tok ∷ toks) addr = add_tokens atoi toks (addr * 256 % 2 ^ 32 + atoi tok % 256)

unfoldable pub ip_str_to_num : (List ℕ → List (List ℕ)) → (List ℕ → ℕ) → List ℕ → ℕ
unfolding add_tokens
ip_str_to_num tokenize atoi s = add_tokens atoi (tokenize s) 0

-- `(uint8_t)(ip & 0xFF000000)`: the mask keeps the top byte in its place, and the cast takes the
-- low one.
top_byte_cast : ℕ → ℕ
top_byte_cast ip = ip / 16777216 * 16777216 % 256

shift_8 : ℕ → ℕ
shift_8 ip = ip * 256 % 2 ^ 32

-- A `uint8_t` goes to the stream as the character with that code; 46 is the dot.
unfoldable pub ip_num_to_str : ℕ → List ℕ
unfolding top_byte_cast shift_8
ip_num_to_str ip =
    let ip1 = shift_8 ip in
    let ip2 = shift_8 ip1 in
    let ip3 = shift_8 ip2 in
    top_byte_cast ip ∷ 46 ∷ top_byte_cast ip1 ∷ 46 ∷ top_byte_cast ip2 ∷ 46 ∷ top_byte_cast ip3 ∷ []

top_byte_cast_zero : (ip : ℕ) → top_byte_cast ip ≡ 0
unfolding top_byte_cast
top_byte_cast_zero ip = omega arith

-- Every address is written as the same seven characters, four of code 0 with dots between them.
ip_num_to_str_constant : (ip : ℕ) → ip_num_to_str ip ≡ 0 ∷ 46 ∷ 0 ∷ 46 ∷ 0 ∷ 46 ∷ 0 ∷ []
unfolding ip_num_to_str
ip_num_to_str_constant ip = rw (
  top_byte_cast_zero ip,
  top_byte_cast_zero (shift_8 ip),
  top_byte_cast_zero (shift_8 (shift_8 ip)),
  top_byte_cast_zero (shift_8 (shift_8 (shift_8 ip))),
)

-- Four tokens that read as bytes are the number whose bytes they are, the first one the highest.
ip_str_to_num_bytes :
    (tokenize : List ℕ → List (List ℕ)) (atoi : List ℕ → ℕ) (s a b c d : List ℕ)
    → tokenize s ≡ a ∷ b ∷ c ∷ d ∷ []
    → atoi a < 256
    → atoi b < 256
    → atoi c < 256
    → atoi d < 256
    → ip_str_to_num tokenize atoi s ≡ atoi a * 16777216 + atoi b * 65536 + atoi c * 256 + atoi d
unfolding ip_str_to_num
ip_str_to_num_bytes tokenize atoi s a b c d e p q r t = rw e (omega arith)

-- The number is one of 32 bits, whatever the text.
add_tokens-lt :
    (atoi : List ℕ → ℕ) (toks : List (List ℕ)) (addr : ℕ)
    → addr < 2 ^ 32
    → add_tokens atoi toks addr < 2 ^ 32
unfolding add_tokens
add_tokens-lt atoi [] addr h = h
add_tokens-lt atoi (tok ∷ toks) addr h = add_tokens-lt atoi toks _ (omega arith)
