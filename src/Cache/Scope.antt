-- ===== src/Cache/Scope.antt =====
-- The key under which a response is kept: a hash of the management key, then the request's path.
-- `hash` is kept as its 32 bits, which is what `>>> 0` reads off in the end.
use Prim.Native.Nat.{bit_xor}
use native.Mathlib.Nat.{pow-suc}
use cpa_keeper_dashboard.Prelude.{
  ℕ, zero, suc, ◌+◌, ◌*◌, ◌/◌, ◌-◌, ◌%◌, ◌^◌, ◌<◌, ◌≡◌, ◌≢◌, ◌↔◌, refl, [], ◌∷◌, ◌++◌, arith, ltb,
  if◌then◌else◌, Bool-cases, inl, inr, ap, ◌∙◌,
}
use cpa_keeper_dashboard.Prelude.Text.{Text, codes}
use cpa_keeper_dashboard.Cache.{cache_prefix}

-- `hash ^= code; hash = Math.imul(hash, 16777619)` for each code unit.
pub fnv : ℕ → Text → ℕ
fnv hash [] = hash
fnv hash (c ∷ key) = fnv ((bit_xor hash c * 16777619) % 2 ^ 32) key

pub digit36 : ℕ → ℕ
digit36 d = if ltb d 10 then b'0' + d else b'a' - 10 + d

-- `n.toString(36)`, the digits so far behind; six divisions reach a single digit below 2 ^ 32.
pub to_base36 : ℕ → ℕ → Text → Text
unfolding digit36
to_base36 zero n rest = digit36 n ∷ rest
to_base36 (suc fuel) n rest =
    let more = to_base36 fuel (n / 36) (digit36 (n % 36) ∷ rest) in
    if ltb n 36 then digit36 n ∷ rest else more

pub cache_scope : Text → Text
unfolding fnv to_base36
cache_scope management_key = to_base36 6 (fnv 2166136261 management_key) []

unfoldable pub cache_key : Text → Text → Text
unfolding cache_scope
cache_key management_key request_path =
    cache_prefix ++ (cache_scope management_key ++ (b':' ∷ request_path))

scope_empty : cache_scope [] ≡ codes "ztntfp"
unfolding cache_scope
scope_empty = refl

abbrev IsBase36 : Text → Type 0
IsBase36 [] = Unit
IsBase36 (c ∷ s) = (c ≢ b':') × IsBase36 s

digit36-ne-colon : (d : ℕ) → d < 36 → digit36 d ≢ b':'
unfolding digit36
digit36-ne-colon d h = ground arith

fewer_digits : (fuel n : ℕ) → n < 36 ^ suc (suc fuel) → n / 36 < 36 ^ suc fuel
fewer_digits fuel n h = omega (arith, pow-suc 36 (suc fuel))

to_base36-IsBase36 :
    (fuel n : ℕ) (rest : Text)
    → n < 36 ^ suc fuel
    → IsBase36 rest
    → IsBase36 (to_base36 fuel n rest)
unfolding to_base36
to_base36-IsBase36 zero n rest h r = (digit36-ne-colon n (omega arith), r)
to_base36-IsBase36 (suc fuel) n rest h r = elim (Bool-cases (ltb n 36)) [
  | inl small ↦ rw small (digit36-ne-colon n (ground arith), r)
  | inr large ↦ rw large (
      to_base36-IsBase36 fuel (n / 36) (digit36 (n % 36) ∷ rest) (fewer_digits fuel n h)
        (digit36-ne-colon (n % 36) (omega arith), r))
]

-- The number that a text in base 36 stands for, read back digit by digit.
value36 : ℕ → ℕ
value36 c = if ltb c b'a' then c - b'0' else c - (b'a' - 10)

read_base36 : ℕ → Text → ℕ
read_base36 acc [] = acc
read_base36 acc (c ∷ s) = read_base36 (acc * 36 + value36 c) s

value36-digit36 : (d : ℕ) → d < 36 → value36 (digit36 d) ≡ d
unfolding value36 digit36
value36-digit36 d h = ground arith

read-to_base36 :
    (fuel n : ℕ) (rest : Text)
    → n < 36 ^ suc fuel
    → read_base36 0 (to_base36 fuel n rest) ≡ read_base36 n rest
unfolding to_base36 read_base36
read-to_base36 zero n rest h =
    let e : 0 + value36 (digit36 n) ≡ n = omega (arith, value36-digit36 n (omega arith)) in
    ap (λ m. read_base36 m rest) e
read-to_base36 (suc fuel) n rest h = elim (Bool-cases (ltb n 36)) [
  | inl small ↦
      let e : 0 + value36 (digit36 n) ≡ n = omega (arith, value36-digit36 n (ground arith)) in
      rw small (ap (λ m. read_base36 m rest) e)
  | inr large ↦
      let e : n / 36 * 36 + value36 (digit36 (n % 36)) ≡ n =
        omega (arith, value36-digit36 (n % 36) (omega arith)) in
      rw large (
        read-to_base36 fuel (n / 36) (digit36 (n % 36) ∷ rest) (fewer_digits fuel n h)
        ∙ ap (λ m. read_base36 m rest) e)
]

fnv-lt : (hash : ℕ) (key : Text) → hash < 2 ^ 32 → fnv hash key < 2 ^ 32
unfolding fnv
fnv-lt hash [] h = h
fnv-lt hash (c ∷ key) h = fnv-lt ((bit_xor hash c * 16777619) % 2 ^ 32) key (omega arith)

append-cancel :
    (p q r s : Text)
    → IsBase36 p
    → IsBase36 q
    → p ++ (b':' ∷ r) ≡ q ++ (b':' ∷ s)
    → (p ≡ q) × (r ≡ s)
append-cancel [] [] r s hp hq e = (refl, cc)
append-cancel [] (y ∷ q) r s hp hq e = absurd (ground arith)
append-cancel (x ∷ p) [] r s hp hq e = absurd (ground arith)
append-cancel (x ∷ p) (y ∷ q) r s hp hq e =
    let (same, rest) = append-cancel p q r s hp.1 hq.1 (cc) in (cc, rest)

prefix-cancel : (p : Text) {r s : Text} → p ++ r ≡ p ++ s → r ≡ s
prefix-cancel [] e = e
prefix-cancel (x ∷ p) e = prefix-cancel p (cc)

scope-IsBase36 : (key : Text) → IsBase36 (cache_scope key)
unfolding cache_scope
scope-IsBase36 key =
    to_base36-IsBase36 6 (fnv 2166136261 key) []
      (omega (arith, fnv-lt 2166136261 key (omega arith))) tt

read-cache_scope : (key : Text) → read_base36 0 (cache_scope key) ≡ fnv 2166136261 key
unfolding cache_scope read_base36
read-cache_scope key =
    read-to_base36 6 (fnv 2166136261 key) [] (omega (arith, fnv-lt 2166136261 key (omega arith)))

-- Two responses share a key of the cache exactly if their request paths are equal and their
-- management keys have the same 32-bit hash: the text of the scope neither runs into the path nor
-- loses a bit of the hash.
pub cache_key-eq_iff :
    (k k' path path' : Text)
    → (cache_key k path ≡ cache_key k' path')
      ↔ ((path ≡ path') × (fnv 2166136261 k ≡ fnv 2166136261 k'))
unfolding cache_key
cache_key-eq_iff k k' path path' = (
  λ e.
      let (scopes, paths) =
        append-cancel (cache_scope k) (cache_scope k') path path' (scope-IsBase36 k)
          (scope-IsBase36 k') (prefix-cancel cache_prefix e) in
      (paths, cc (read-cache_scope k, read-cache_scope k', ap (read_base36 0) scopes)),
  λ w. unfold cache_scope in cc (w.0, w.1),
)
