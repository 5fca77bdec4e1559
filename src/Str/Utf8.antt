-- ===== src/Str/Utf8.antt =====
-- Python's incremental UTF-8 decoder with the error handler `replace`, and the encoder.
pub mod Chunks
use tai_mcp_ssh.Prelude.{
  ℕ, zero, suc, ◌+◌, ◌-◌, ◌*◌, ◌/◌, ◌%◌, Bool, true, false, ◌&&◌, List, [], ◌∷◌, ◌++◌, ltb, leb,
  ◌==◌, if◌then◌else◌, Text, length,
}

-- `partial value left lo hi`: a sequence of which `left` bytes are missing; the next lies between
-- `lo` and `hi`.
pub data Decoder : Type 0 where
  ready : Decoder
  partial : ℕ → ℕ → ℕ → ℕ → Decoder

abbrev pub replacement : ℕ
replacement = 0xfffd

-- a byte at the start of a sequence
unfoldable pub start_byte : ℕ → Decoder × Text
start_byte b =
    if ltb b 0x80
    then (ready, b ∷ [])
    else if ltb b 0xc2
    then (ready, replacement ∷ [])
    else if ltb b 0xe0
    then (partial (b - 0xc0) 1 0x80 0xbf, [])
    else if ltb b 0xf0
    then (
      partial (b - 0xe0) 2 (if b == 0xe0 then 0xa0 else 0x80) (if b == 0xed then 0x9f else 0xbf),
      [],
    )
    else if ltb b 0xf5
    then (
      partial (b - 0xf0) 3 (if b == 0xf0 then 0x90 else 0x80) (if b == 0xf4 then 0x8f else 0xbf),
      [],
    )
    else (ready, replacement ∷ [])

continued : ℕ → ℕ → Decoder × Text
continued value zero = (ready, value ∷ [])
continued value (suc zero) = (ready, value ∷ [])
continued value (suc (suc left)) = (partial value (suc left) 0x80 0xbf, [])

replaced : Decoder × Text → Decoder × Text
replaced (d, s) = (d, replacement ∷ s)

unfoldable pub step : Decoder → ℕ → Decoder × Text
unfolding start_byte continued replaced
step ready b = start_byte b
step (partial value left lo hi) b =
    if leb lo b && leb b hi
    then continued (value * 64 + (b - 0x80)) left
    else replaced (start_byte b)

-- `decoder.decode(raw)`: the decoder afterwards, and the text
unfoldable pub decode : Decoder → List ℕ → Decoder × Text
unfolding step
decode d [] = (d, [])
decode d (b ∷ bs) = let (d', s) = step d b in let (d'', t) = decode d' bs in (d'', s ++ t)

flush : Decoder → Text
flush ready = []
flush (partial value left lo hi) = replacement ∷ []

-- `raw.decode("utf-8", errors="replace")`
unfoldable pub decode_all : List ℕ → Text
unfolding decode flush
decode_all raw = let (d, s) = decode ready raw in s ++ flush d

-- the bytes of one character
unfoldable pub encode_char : ℕ → List ℕ
encode_char c =
    if ltb c 0x80
    then c ∷ []
    else if ltb c 0x800
    then (0xc0 + c / 64) ∷ (0x80 + c % 64) ∷ []
    else if ltb c 0x10000
    then (0xe0 + c / 4096) ∷ (0x80 + c / 64 % 64) ∷ (0x80 + c % 64) ∷ []
    else (0xf0 + c / 262144) ∷ (0x80 + c / 4096 % 64) ∷ (0x80 + c / 64 % 64) ∷ (0x80 + c % 64) ∷ []

-- `s.encode("utf-8")`, for a text without surrogates
unfoldable pub encode : Text → List ℕ
unfolding encode_char
encode [] = []
encode (c ∷ s) = encode_char c ++ encode s
