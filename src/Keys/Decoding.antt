-- ===== src/Keys/Decoding.antt =====
-- `decodeObfuscated` and `parseJSON` (go/dashboard/app.js).
use cpa_keeper_dashboard.Prelude.{
  ℕ, zero, suc, ◌+◌, ◌%◌, ◌<◌, ◌≡◌, refl, ap, ◌⊎◌, inl, inr, Bool, true, false, ◌&&◌, Option, none,
  some, List, [], ◌∷◌, ◌++◌, ◌==◌, arith, Bool-cases, length, get_or, bit_xor, ==_iff, ℕ_discrete,
}
use cpa_keeper_dashboard.Prelude.Json.{Json, null, bool, num, str, arr, obj}
use cpa_keeper_dashboard.Prelude.Interface.{◌===◌}
use cpa_keeper_dashboard.Prelude.Text.{Text, text_eq}
use cpa_keeper_dashboard.Keys.{
  xor_bytes, obfuscation_prefix, Platform, decode_obfuscated, parse_inner, parse_json,
}

-- A key is put on twice: each byte below the bound comes back, and for each key below a bound.
comes_back : (key bound : ℕ) → Bool
comes_back key zero = true
comes_back key (suc byte) = comes_back key byte && (bit_xor (bit_xor byte key) key == byte)

keys_come_back : ℕ → Bool
unfolding comes_back
keys_come_back zero = true
keys_come_back (suc key) = comes_back key 256 && keys_come_back key

every_key_comes_back : keys_come_back 256 ≡ true
unfolding keys_come_back
every_key_comes_back = refl

comes_back-eq :
    (key bound byte : ℕ)
    → byte < bound
    → comes_back key bound ≡ true
    → bit_xor (bit_xor byte key) key ≡ byte
unfolding comes_back
comes_back-eq key zero byte l h = absurd (omega arith)
comes_back-eq key (suc bound) byte l h = elim (ℕ_discrete byte bound) [
  | yes last ↦ let q = (==_iff (bit_xor (bit_xor bound key) key) bound).0 in ground arith
  | no earlier ↦ comes_back-eq key bound byte (omega arith) (ground arith)
]

keys_come_back-comes_back :
    (bound key : ℕ) → key < bound → keys_come_back bound ≡ true → comes_back key 256 ≡ true
unfolding keys_come_back
keys_come_back-comes_back zero key l h = absurd (omega arith)
keys_come_back-comes_back (suc bound) key l h = elim (ℕ_discrete key bound) [
  | yes last ↦ rw last (ground arith)
  | no earlier ↦ keys_come_back-comes_back bound key (omega arith) (ground arith)
]

bit_xor_twice : (b k : ℕ) → b < 256 → k < 256 → bit_xor (bit_xor b k) k ≡ b
bit_xor_twice b k hb hk =
    comes_back-eq k 256 b hb (keys_come_back-comes_back 256 k hk every_key_comes_back)

abbrev AllBytes : List ℕ → Type 0
AllBytes [] = Unit
AllBytes (b ∷ bs) = (b < 256) × AllBytes bs

get_or-byte : (bs : List ℕ) (i : ℕ) → AllBytes bs → get_or bs i 0 < 256
get_or-byte [] i h = omega arith
get_or-byte (b ∷ bs) zero (l, h) = l
get_or-byte (b ∷ bs) (suc i) (l, h) = get_or-byte bs i h

xor_bytes_twice :
    (key : List ℕ) (i : ℕ) (bs : List ℕ)
    → AllBytes key
    → AllBytes bs
    → xor_bytes key i (xor_bytes key i bs) ≡ bs
unfolding xor_bytes
xor_bytes_twice key i [] hk h = refl
xor_bytes_twice key i (b ∷ bs) hk (l, h) =
    rw (bit_xor_twice b (get_or key (i % length key) 0) l (get_or-byte key (i % length key) hk))
      (rw (xor_bytes_twice key (i + 1) bs hk h) refl)

longer-differs : (t s : Text) → length t < length s → (t === s) ≡ false
longer-differs t s l = elim (Bool-cases (t === s)) [
  | inl same ↦ let e = ap length ((text_eq.beq_iff t s).0 same) in absurd (omega arith)
  | inr other ↦ other
]

module _ {N : Type 0} (p : Platform N) where
  -- A stored text that is `enc::v1::` and the base64 of bytes that the key was put on, byte for byte
  -- by exclusive or, is read as the text that those bytes encoded, if the key and the text are bytes.
  pub decode_obfuscated-xor_bytes :
      (rest : Text) (plain : List ℕ)
      → AllBytes p.key_bytes
      → AllBytes plain
      → p.atob rest ≡ some (xor_bytes p.key_bytes 0 plain)
      → decode_obfuscated p (obfuscation_prefix ++ rest) ≡ p.text_decode plain
  unfolding decode_obfuscated
  decode_obfuscated-xor_bytes rest plain hk h e =
      rw e (ap p.text_decode (xor_bytes_twice p.key_bytes 0 plain hk h))

  -- Parsing `n` times leads from a text to a text.
  abbrev Unwraps : ℕ → Text → Text → Type 0
  Unwraps zero s t = s ≡ t
  Unwraps (suc n) s t = (u : Text) × (p.json_parse s ≡ some (str u)) × Unwraps n u t

  abbrev IsText : Json N → Type 0
  IsText (str s) = Unit
  IsText _ = ⊥

  -- A text inside the first text that is not JSON, or that is JSON for something else than a text.
  abbrev pub Settles : Text → Json N → Type 0
  Settles s v =
      (n : ℕ) × (t : Text) × Unwraps n s t
      × (((p.json_parse t ≡ none) × (v ≡ str t)) ⊎ ((p.json_parse t ≡ some v) × (IsText v → ⊥)))

  -- A string literal has its quotes, and at least one unit for each of the text's.
  abbrev Shortens : Type 0
  Shortens = (s t : Text) → p.json_parse s ≡ some (str t) → length t < length s

  inner-Settles :
      (n : ℕ) (s : Text) (o : Option (Json N))
      → p.json_parse s ≡ o
      → ((t : Text)
          → p.json_parse s ≡ some (str t)
          → (v : Json N) × (parse_json p n t ≡ some v) × Settles t v)
      → ((t : Text) → p.json_parse s ≡ some (str t) → (t === s) ≡ false)
      → (v : Json N) × (parse_inner p (parse_json p n) s o ≡ some v) × Settles s v
  inner-Settles n s none e ih ne = (str s, refl, (0, s, refl, inl (e, refl)))
  inner-Settles n s (some (str t)) e ih ne =
      let (v, q, (m, u, w, r)) = ih t e in (v, rw (ne t e) q, (suc m, u, (t, e, w), r))
  inner-Settles n s (some null) e ih ne = (null, refl, (0, s, refl, inr (e, λ x. x)))
  inner-Settles n s (some (bool b)) e ih ne = (bool b, refl, (0, s, refl, inr (e, λ x. x)))
  inner-Settles n s (some (num x)) e ih ne = (num x, refl, (0, s, refl, inr (e, λ x. x)))
  inner-Settles n s (some (arr x)) e ih ne = (arr x, refl, (0, s, refl, inr (e, λ x. x)))
  inner-Settles n s (some (obj x)) e ih ne = (obj x, refl, (0, s, refl, inr (e, λ x. x)))

  -- `parseJSON` ends: where a text inside a JSON text is shorter than this, as much fuel as the text
  -- has code units, and one more, gives a result. It is the text in the innermost of the texts that
  -- stand in one another, if that is not JSON, and else what it is JSON for, which is no text.
  pub parse_json-Settles :
      Shortens
      → (n : ℕ) (s : Text) → length s < n
      → (v : Json N) × (parse_json p n s ≡ some v) × Settles s v
  unfolding parse_json
  parse_json-Settles short zero s l = absurd (omega arith)
  parse_json-Settles short (suc n) s l =
      inner-Settles n s (p.json_parse s) refl
        (λ t e. parse_json-Settles short n t (let q = short s t e in omega arith))
        (λ t e. longer-differs t s (short s t e))
