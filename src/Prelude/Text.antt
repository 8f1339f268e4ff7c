-- ===== src/Prelude/Text.antt =====
-- Text as bytes: literals, C strings, and the numbers that `printf` writes.
use Prim.Native.Char.{code}
use Prim.Native.String.{String}
use native.Mathlib.Nat.{pow-suc, pow-le-pow_right}
use ratehub.Prelude.{
  ℕ, zero, suc, ◌+◌, ◌/◌, ◌%◌, ◌^◌, ◌≤◌, ◌<◌, ◌≡◌, refl, inl, inr, Bool, true, false, ◌&&◌, ◌||◌,
  Bool-cases, Option, none, some, List, [], ◌∷◌, ◌++◌, length, length-append, arith, ltb, ◌==◌,
  if◌then◌else◌,
}
use ratehub.Prelude.Int.{ℤ, pos, negsuc}

-- The bytes of an ASCII literal.
abbrev pub codes : String → List ℕ
codes String.[] = []
codes (String.◌∷◌ c s) = code c ∷ codes s

-- What the string functions of C see of a buffer: the bytes before the first zero.
unfoldable pub c_string : List ℕ → List ℕ
c_string [] = []
c_string (c ∷ s) = if c == 0 then [] else c ∷ c_string s

unfoldable pub bytes_eq : List ℕ → List ℕ → Bool
bytes_eq [] [] = true
bytes_eq [] (d ∷ t) = false
bytes_eq (c ∷ s) [] = false
bytes_eq (c ∷ s) (d ∷ t) = c == d && bytes_eq s t

unfoldable pub starts_with : List ℕ → List ℕ → Bool
starts_with [] s = true
starts_with (c ∷ p) [] = false
starts_with (c ∷ p) (d ∷ s) = c == d && starts_with p s

-- `strstr(s, p) != nullptr`
unfoldable pub contains : List ℕ → List ℕ → Bool
unfolding starts_with
contains p [] = starts_with p []
contains p (c ∷ s) = starts_with p (c ∷ s) || contains p s

-- The index that `strchr` finds.
unfoldable pub index_of : ℕ → List ℕ → Option ℕ
index_of c [] = none
index_of c (d ∷ s) =
    if c == d then some 0 else elim (index_of c s) [ none ↦ none | some i ↦ some (suc i) ]

-- Up to `fuel` decimal digits.
unfoldable pub digits : ℕ → ℕ → List ℕ
digits zero n = []
digits (suc fuel) n =
    let front = digits fuel (n / 10) in
    if ltb n 10 then (b'0' + n) ∷ [] else front ++ ((b'0' + n % 10) ∷ [])

-- `%u` and `%llu`: no number below `2 ^ 64` has more than 20 digits.
unfoldable pub decimal : ℕ → List ℕ
unfolding digits
decimal n = digits 20 n

-- `%d`
unfoldable pub signed_decimal : ℤ → List ℕ
signed_decimal (pos n) = decimal n
signed_decimal (negsuc n) = b'-' ∷ decimal (suc n)

digits-le : (fuel k n : ℕ) → 0 < k → n < 10 ^ k → length (digits fuel n) ≤ k
unfolding digits
digits-le zero k n h small = omega arith
digits-le (suc fuel) zero n h small = absurd (omega arith)
digits-le (suc fuel) (suc zero) n h small = ground arith
digits-le (suc fuel) (suc (suc k)) n h small = ground (
  arith,
  pow-suc 10 (suc k),
  digits-le fuel (suc k) (n / 10),
  length-append {0} (digits fuel (n / 10)) ((b'0' + n % 10) ∷ []),
)

pub decimal-le : (k n : ℕ) → 0 < k → n < 10 ^ k → length (decimal n) ≤ k
unfolding decimal
decimal-le k n h small = digits-le 20 k n h small

length-digits-le : (fuel n : ℕ) → length (digits fuel n) ≤ fuel
unfolding digits
length-digits-le zero n = omega arith
length-digits-le (suc fuel) n = ground (
  arith,
  length-digits-le fuel (n / 10),
  length-append {0} (digits fuel (n / 10)) ((b'0' + n % 10) ∷ []),
)

pub length-decimal-le : (n : ℕ) → length (decimal n) ≤ 20
unfolding decimal
length-decimal-le n = length-digits-le 20 n

pub length-signed_decimal-le : (z : ℤ) → length (signed_decimal z) ≤ 21
unfolding signed_decimal
length-signed_decimal-le (pos n) = omega (arith, length-decimal-le n)
length-signed_decimal-le (negsuc n) = omega (arith, length-decimal-le (suc n))

digits-ge : (fuel k n : ℕ) → k < fuel → 10 ^ k ≤ n → k < length (digits fuel n)
unfolding digits
digits-ge zero k n h large = absurd (omega arith)
digits-ge (suc fuel) zero n h large =
    ground (arith, length-append {0} (digits fuel (n / 10)) ((b'0' + n % 10) ∷ []))
digits-ge (suc fuel) (suc k) n h large =
    let one : 10 ^ 0 ≤ 10 ^ k = pow-le-pow_right (omega arith) {i = 0} {j = k} (omega arith) in
    let wide : 10 ≤ n = omega (arith, pow-suc 10 k) in
    ground (
      arith,
      wide,
      pow-suc 10 k,
      digits-ge fuel k (n / 10),
      length-append {0} (digits fuel (n / 10)) ((b'0' + n % 10) ∷ []),
    )

pub decimal-ge : (k n : ℕ) → k < 20 → 10 ^ k ≤ n → k < length (decimal n)
unfolding decimal
decimal-ge k n h large = digits-ge 20 k n h large

pub bytes_eq-eq : (s t : List ℕ) → bytes_eq s t ≡ true → s ≡ t
unfolding bytes_eq
bytes_eq-eq [] [] h = refl
bytes_eq-eq [] (d ∷ t) h = absurd (cc)
bytes_eq-eq (c ∷ s) [] h = absurd (cc)
bytes_eq-eq (c ∷ s) (d ∷ t) h = ground (arith, bytes_eq-eq s t)

pub bytes_eq_refl : (s : List ℕ) → bytes_eq s s ≡ true
unfolding bytes_eq
bytes_eq_refl [] = refl
bytes_eq_refl (c ∷ s) = ground (arith, bytes_eq_refl s)

pub starts_with-append : (p s t : List ℕ) → starts_with p s ≡ true → starts_with p (s ++ t) ≡ true
unfolding starts_with
starts_with-append [] s t h = refl
starts_with-append (c ∷ p) [] t h = absurd (cc)
starts_with-append (c ∷ p) (d ∷ s) t h = ground (arith, starts_with-append p s t)

contains-nil : (t : List ℕ) → contains [] t ≡ true
unfolding contains
contains-nil [] = refl
contains-nil (c ∷ t) = refl

pub contains-append : (p s t : List ℕ) → contains p s ≡ true → contains p (s ++ t) ≡ true
unfolding contains
contains-append [] [] t h = contains-nil t
contains-append (c ∷ p) [] t h = absurd (cc)
contains-append p (c ∷ s) t h =
    ground (arith, starts_with-append p (c ∷ s) t, contains-append p s t)

-- More bytes after a buffer extend its C string, or leave it.
pub c_string-append : (s t : List ℕ) → (more : List ℕ) × (c_string (s ++ t) ≡ c_string s ++ more)
unfolding c_string
c_string-append [] t = (c_string t, refl)
c_string-append (c ∷ s) t =
    let (more, same) = c_string-append s t in
    elim (Bool-cases (c == 0)) [ inl e ↦ ([], rw e refl) | inr e ↦ (more, rw (e, same) refl) ]
