-- ===== src/Positions/Decimal.antt =====
-- Decimal text of 78 digits, an instance of `Formats` of trade/positions.rs.
use native.Mathlib.Nat.{div-add-mod', mod-lt, pow-suc, div-lt_iff_lt-mul}
use Prim.Native.Char.{Char, code}
use Prim.Native.String
use bodkin.Prelude.{
  ℕ, suc, zero, ◌+◌, ◌-◌, ◌*◌, ◌/◌, ◌%◌, ◌^◌, ◌≡◌, ◌<◌, refl, ◌∙◌, Bool, Bool-cases, inl, inr, true,
  false, ◌&&◌, Option, none, some, String, if◌then◌else◌, leb, ltb, ◌==◌, u256_mod, arith,
}
use bodkin.Positions.Record.{Formats, IsDecimal}

abbrev digit : ℕ → Char
digit d =
    if d == 0
    then "0"
    else if d == 1
    then "1"
    else if d == 2
    then "2"
    else if d == 3
    then "3"
    else if d == 4
    then "4"
    else if d == 5
    then "5"
    else if d == 6
    then "6"
    else if d == 7
    then "7"
    else if d == 8
    then "8"
    else "9"

code-if : (b : Bool) (x y : Char) → code (if b then x else y) ≡ (if b then code x else code y)
code-if true x y = refl
code-if false x y = refl

code-digit : (d : ℕ) → d < 10 → code (digit d) ≡ 48 + d
code-digit d h = simp code-if (ground arith)

unfoldable pub emit : ℕ → ℕ → String → String
emit zero n out = out
emit (suc k) n out = emit k (n / 10) (String.◌∷◌ (digit (n % 10)) out)

unfoldable pub scan : ℕ → String → Option ℕ
scan sum String.[] = if ltb sum u256_mod then some sum else none
scan sum (String.◌∷◌ c s) =
    let rest = scan (sum * 10 + (code c - 48)) s in
    if leb 48 (code c) && leb (code c) 57 then rest else none

scan-digit : (n : ℕ) (out : String) → scan (n / 10) (String.◌∷◌ (digit (n % 10)) out) ≡ scan n out
unfolding scan
scan-digit n out =
    let small : n % 10 < 10 = mod-lt n (omega arith) in
    let whole : n / 10 * 10 + n % 10 ≡ n = div-add-mod' n 10 in
    let digits : n / 10 * 10 + (48 + n % 10 - 48) ≡ n = omega (arith, whole) in
    let low : leb 48 (48 + n % 10) ≡ true = ground arith in
    let high : leb (48 + n % 10) 57 ≡ true = ground arith in
    rw (code-digit (n % 10) small, low, high, digits) refl

scan_end : (n : ℕ) → n < u256_mod → scan n "" ≡ some n
unfolding scan
scan_end n h = ground arith

scan-emit : (k n : ℕ) (out : String) → n < 10 ^ k → scan 0 (emit k n out) ≡ scan n out
unfolding scan emit
scan-emit zero n out h = let none_left : n ≡ 0 = omega arith in rw none_left refl
scan-emit (suc k) n out h =
    let smaller : n / 10 < 10 ^ k = (div-lt_iff_lt-mul (omega arith)).1 (rw (pow-suc 10 k) at h) in
    scan-emit k (n / 10) (String.◌∷◌ (digit (n % 10)) out) smaller ∙ scan-digit n out

unfoldable pub formats : Formats
unfolding emit scan
formats = record {
  parse = scan 0;
  show = λ n. emit 78 n "";
  show_hash = λ n. String.◌++◌ "0x" (emit 78 n "");
}

scan-bound : (s : String) (sum n : ℕ) → scan sum s ≡ some n → n < u256_mod
unfolding scan
scan-bound String.[] sum n h = ground arith
scan-bound (String.◌∷◌ c s) sum n h = elim (Bool-cases (leb 48 (code c) && leb (code c) 57)) [
  | inl good ↦ scan-bound s (sum * 10 + (code c - 48)) n (rw good at h)
  | inr bad ↦ cc (rw bad at h)
]

pub formats-IsDecimal : IsDecimal formats
unfolding formats scan
formats-IsDecimal = record {
  parse-show = λ n h. scan-emit 78 n "" (omega arith) ∙ scan_end n h;
  parse-bound = λ s n h. scan-bound s 0 n h;
}
