-- ===== src/Str/Utf8/Chunks.antt =====
-- The UTF-8 decoder on input in pieces, and on the output of the encoder.
use tai_mcp_ssh.Prelude.{
  ℕ, suc, ◌+◌, ◌-◌, ◌*◌, ◌/◌, ◌%◌, ◌≤◌, ◌<◌, List, [], ◌∷◌, ◌++◌, ◌≡◌, refl, ap, sym, ◌∙◌, ◌⊎◌, inl,
  inr, arith, ltb, ◌==◌, if◌then◌else◌, Text, All, append_assoc, Bool-cases,
}
use tai_mcp_ssh.Str.Utf8.{Decoder, ready, partial, step, decode, encode_char, encode}

-- What a decoder makes of the rest of its input, given what it has made so far.
abbrev pub go_on : Decoder × Text → List ℕ → Decoder × Text
go_on (d, s) bs = ((decode d bs).0, s ++ (decode d bs).1)

-- Input that comes in two pieces is decoded as in one: a character cut in two is held back.
pub decode-append : (d : Decoder) (a b : List ℕ) → decode d (a ++ b) ≡ go_on (decode d a) b
unfolding decode
decode-append d [] b = refl
decode-append d (x ∷ a) b =
    ap (λ (r : Decoder × Text). (r.0, (step d x).1 ++ r.1)) (decode-append (step d x).0 a b)
    ∙ ap (λ (t : Text). ((decode (decode (step d x).0 a).0 b).0, t))
        (sym (append_assoc (step d x).1 (decode (step d x).0 a).1 _))

-- A character that UTF-8 can encode.
abbrev pub IsScalar : ℕ → Type 0
IsScalar c = (c < 0xd800) ⊎ ((0xe000 ≤ c) × (c < 0x110000))

decode-step :
    (d : Decoder) (b : ℕ) (bs : List ℕ) {d' : Decoder} {s : Text}
    → step d b ≡ (d', s)
    → decode d (b ∷ bs) ≡ ((decode d' bs).0, s ++ (decode d' bs).1)
unfolding decode
decode-step d b bs h = ap (λ (r : Decoder × Text). ((decode r.0 bs).0, r.1 ++ (decode r.0 bs).1)) h

-- the last byte of a sequence
step_last :
    (v b : ℕ)
    → 0x80 ≤ b
    → b ≤ 0xbf
    → step (partial v 1 0x80 0xbf) b ≡ (ready, (v * 64 + (b - 0x80)) ∷ [])
unfolding step
step_last v b p q = ground arith

step_inner :
    (v left b lo hi : ℕ)
    → lo ≤ b
    → b ≤ hi
    → step (partial v (suc (suc left)) lo hi) b
      ≡ (partial (v * 64 + (b - 0x80)) (suc left) 0x80 0xbf, [])
unfolding step
step_inner v left b lo hi p q = ground arith

encode_two :
    (c : ℕ) (bs : List ℕ)
    → 0x80 ≤ c
    → c < 0x800
    → decode ready ((0xc0 + c / 64) ∷ (0x80 + c % 64) ∷ bs) ≡ go_on (ready, c ∷ []) bs
encode_two c bs p q =
    decode-step ready (0xc0 + c / 64) _ first
    ∙ decode-step (partial (c / 64) 1 0x80 0xbf) (0x80 + c % 64) bs
        (step_last (c / 64) (0x80 + c % 64) (omega arith) (omega arith))
    ∙ ap (λ n. go_on (ready, n ∷ []) bs) whole
  where
    first : step ready (0xc0 + c / 64) ≡ (partial (c / 64) 1 0x80 0xbf, [])
    first = unfold step in ground arith

    whole : c / 64 * 64 + (0x80 + c % 64 - 0x80) ≡ c
    whole = omega arith

low_three : ℕ → ℕ
low_three c = if (0xe0 + c / 4096) == 0xe0 then 0xa0 else 0x80

high_three : ℕ → ℕ
high_three c = if (0xe0 + c / 4096) == 0xed then 0x9f else 0xbf

encode_three :
    (c : ℕ) (bs : List ℕ)
    → 0x800 ≤ c
    → c < 0x10000
    → IsScalar c
    → decode ready ((0xe0 + c / 4096) ∷ (0x80 + c / 64 % 64) ∷ (0x80 + c % 64) ∷ bs)
      ≡ go_on (ready, c ∷ []) bs
encode_three c bs p q r =
    decode-step ready (0xe0 + c / 4096) _ first
    ∙ decode-step (partial (c / 4096) 2 (low_three c) (high_three c)) (0x80 + c / 64 % 64) _
        (step_inner (c / 4096) 0 (0x80 + c / 64 % 64) (low_three c) (high_three c) above below)
    ∙ decode-step (partial (c / 4096 * 64 + (0x80 + c / 64 % 64 - 0x80)) 1 0x80 0xbf)
        (0x80 + c % 64) bs (step_last _ (0x80 + c % 64) (omega arith) (omega arith))
    ∙ ap (λ n. go_on (ready, n ∷ []) bs) whole
  where
    first : step ready (0xe0 + c / 4096) ≡ (partial (c / 4096) 2 (low_three c) (high_three c), [])
    first = unfold step low_three high_three in ground arith

    above : low_three c ≤ 0x80 + c / 64 % 64
    above = unfold low_three in ground arith

    below : 0x80 + c / 64 % 64 ≤ high_three c
    below = unfold high_three in ground arith

    whole : (c / 4096 * 64 + (0x80 + c / 64 % 64 - 0x80)) * 64 + (0x80 + c % 64 - 0x80) ≡ c
    whole = omega arith

low_four : ℕ → ℕ
low_four c = if (0xf0 + c / 262144) == 0xf0 then 0x90 else 0x80

high_four : ℕ → ℕ
high_four c = if (0xf0 + c / 262144) == 0xf4 then 0x8f else 0xbf

encode_four :
    (c : ℕ) (bs : List ℕ)
    → 0x10000 ≤ c
    → c < 0x110000
    → decode ready
        ((0xf0 + c / 262144) ∷ (0x80 + c / 4096 % 64) ∷ (0x80 + c / 64 % 64) ∷ (0x80 + c % 64) ∷ bs)
      ≡ go_on (ready, c ∷ []) bs
encode_four c bs p q =
    decode-step ready (0xf0 + c / 262144) _ first
    ∙ decode-step (partial (c / 262144) 3 (low_four c) (high_four c)) (0x80 + c / 4096 % 64) _
        (step_inner (c / 262144) 1 (0x80 + c / 4096 % 64) (low_four c) (high_four c) above below)
    ∙ decode-step (partial (c / 262144 * 64 + (0x80 + c / 4096 % 64 - 0x80)) 2 0x80 0xbf)
        (0x80 + c / 64 % 64) _
        (step_inner _ 0 (0x80 + c / 64 % 64) 0x80 0xbf (omega arith) (omega arith))
    ∙ decode-step
        (partial
          ((c / 262144 * 64 + (0x80 + c / 4096 % 64 - 0x80)) * 64 + (0x80 + c / 64 % 64 - 0x80)) 1
          0x80 0xbf)
        (0x80 + c % 64) bs (step_last _ (0x80 + c % 64) (omega arith) (omega arith))
    ∙ ap (λ n. go_on (ready, n ∷ []) bs) whole
  where
    first : step ready (0xf0 + c / 262144) ≡ (partial (c / 262144) 3 (low_four c) (high_four c), [])
    first = unfold step low_four high_four in ground arith

    above : low_four c ≤ 0x80 + c / 4096 % 64
    above = unfold low_four in ground arith

    below : 0x80 + c / 4096 % 64 ≤ high_four c
    below = unfold high_four in ground arith

    whole :
        ((c / 262144 * 64 + (0x80 + c / 4096 % 64 - 0x80)) * 64 + (0x80 + c / 64 % 64 - 0x80)) * 64
          + (0x80 + c % 64 - 0x80)
        ≡ c
    whole = omega arith

-- One encoded character is read back, whatever follows.
decode-encode_char :
    (c : ℕ) (bs : List ℕ)
    → IsScalar c
    → decode ready (encode_char c ++ bs) ≡ go_on (ready, c ∷ []) bs
unfolding encode_char
decode-encode_char c bs h = elim (Bool-cases (ltb c 0x80)) [
  | inl e ↦
      rw e (decode-step ready c bs {d' = ready} {s = c ∷ []} (unfold step in ground (arith, e)))
  | inr e ↦ rw e (elim (Bool-cases (ltb c 0x800)) [
    | inl e₂ ↦ rw e₂ (encode_two c bs (ground (arith, e)) (ground (arith, e₂)))
    | inr e₂ ↦ rw e₂ (elim (Bool-cases (ltb c 0x10000)) [
      | inl e₃ ↦ rw e₃ (encode_three c bs (ground (arith, e₂)) (ground (arith, e₃)) h)
      | inr e₃ ↦ rw e₃ (encode_four c bs (ground (arith, e₃)) (ground (arith, e₃)))
    ])
  ])
]

-- Decoding undoes encoding, for every text without surrogates.
pub decode-encode : (s : Text) → All IsScalar s → decode ready (encode s) ≡ (ready, s)
unfolding encode
decode-encode [] h = unfold decode in refl
decode-encode (c ∷ s) h =
    decode-encode_char c (encode s) h.0 ∙ ap (λ r. (r.0, c ∷ r.1)) (decode-encode s h.1)
