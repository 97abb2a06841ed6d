-- ===== src/Prelude/Decimal/Laws.antt =====
-- Laws of decimal digits: their number, their value, and the value of the first `k`.
use adn_dmr_peer_server.Prelude.Tests.{ltb, ltb_iff, leb, leb_iff, Bool-cases}
use adn_dmr_peer_server.Prelude.Lists.{length, take, length-append}
use adn_dmr_peer_server.Prelude.Slices.{take-append_le, take-all}
use adn_dmr_peer_server.Prelude.Decimal.{str_from, str, int_from, int, prefix}
use Prim.Native.Nat.{ℕ, zero, suc, ◌+◌, ◌*◌, ◌/◌, ◌%◌, ◌≤◌, ◌<◌, ◌^◌}
use mathlib.Core.Path.{◌≡◌, refl, ap, sym, ◌∙◌}
use mathlib.Core.Logic.{inl, inr, ◌↔◌, ◌⊎◌}
use native.Mathlib.Nat.{pow-suc, div-div-eq-div-mul, pow-succ', div-one}
use mathlib.Core.List.{List, [], ◌∷◌, ◌++◌, append_assoc}
use native.Mathlib.Omega.{arith}

str_from-append : (f n : ℕ) (acc : List ℕ) → str_from f n acc ≡ str_from f n [] ++ acc
unfolding str_from
str_from-append zero n acc = refl
str_from-append (suc f) n acc = elim (Bool-cases (ltb n 10)) [
  | inl small ↦ rw small
  | inr big ↦ rw big (
      str_from-append f (n / 10) ((n % 10) ∷ acc)
      ∙ sym (append_assoc (str_from f (n / 10) []) ((n % 10) ∷ []) acc)
      ∙ ap (λ t. t ++ acc) (sym (str_from-append f (n / 10) ((n % 10) ∷ []))))
]

str_from_fuel : (f g n : ℕ) (acc : List ℕ) → n ≤ f → n ≤ g → str_from f n acc ≡ str_from g n acc
unfolding str_from
str_from_fuel zero zero n acc p q = refl
str_from_fuel zero (suc g) n acc p q = ground arith
str_from_fuel (suc f) zero n acc p q = ground arith
str_from_fuel (suc f) (suc g) n acc p q =
    ground (arith, str_from_fuel f g (n / 10) ((n % 10) ∷ acc))

pub str_small : (n : ℕ) → n < 10 → str n ≡ n ∷ []
unfolding str
str_small zero h = refl
str_small (suc n) h = ground arith

pub str_step : (n : ℕ) → 10 ≤ n → str n ≡ str (n / 10) ++ (n % 10) ∷ []
unfolding str
str_step zero h = absurd (omega arith)
str_step (suc n) h = elim (Bool-cases (ltb (suc n) 10)) [
  | inl small ↦ absurd (omega (arith, (ltb_iff (suc n) 10).0 small))
  | inr big ↦ rw big (
      str_from_fuel n (suc n / 10) (suc n / 10) ((suc n % 10) ∷ []) (omega arith) (omega arith)
      ∙ str_from-append (suc n / 10) (suc n / 10) ((suc n % 10) ∷ []))
]

pub length-str_small : (n : ℕ) → n < 10 → length (str n) ≡ 1
length-str_small n h = ap length (str_small n h)

pub length-str_step : (n : ℕ) → 10 ≤ n → length (str n) ≡ length (str (n / 10)) + 1
length-str_step n h = ap length (str_step n h) ∙ length-append (str (n / 10)) ((n % 10) ∷ [])

int_from-append :
    (acc : ℕ) (ds : List ℕ) (d : ℕ) → int_from acc (ds ++ d ∷ []) ≡ int_from acc ds * 10 + d
unfolding int_from
int_from-append acc [] d = refl
int_from-append acc (e ∷ ds) d = int_from-append (acc * 10 + e) ds d

int-append : (ds : List ℕ) (d : ℕ) → int (ds ++ d ∷ []) ≡ int ds * 10 + d
unfolding int
int-append ds d = int_from-append 0 ds d

int-str_small : (n : ℕ) → n < 10 → int (str n) ≡ n
int-str_small n h = rw (str_small n h) (unfold int int_from in omega arith)

int-str_fuel : (f n : ℕ) → n ≤ f → int (str n) ≡ n
int-str_fuel zero n h = int-str_small n (omega arith)
int-str_fuel (suc f) n h = elim (Bool-cases (ltb n 10)) [
  | inl small ↦ int-str_small n ((ltb_iff n 10).0 small)
  | inr big ↦
      rw (str_step n (ground arith))
        (omega (arith, int-append (str (n / 10)) (n % 10), int-str_fuel f (n / 10) (ground arith)))
]

-- `int(str(n)) == n`
pub int-str : (n : ℕ) → int (str n) ≡ n
int-str n = int-str_fuel n n (omega arith)

-- A number of at most `k` digits is its own prefix.
pub prefix_all : (k n : ℕ) → length (str n) ≤ k → prefix k n ≡ n
prefix_all k n h = ap int (take-all k (str n) h) ∙ int-str n

-- Of a longer number the last digit plays no part.
pub prefix_drop : (k n : ℕ) → k < length (str n) → 10 ≤ n → prefix k n ≡ prefix k (n / 10)
prefix_drop k n h big =
    ap (λ t. int (take k t)) (str_step n big)
    ∙ ap int
        (take-append_le k (str (n / 10)) ((n % 10) ∷ []) (omega (arith, length-str_step n big)))

length-str-cases :
    (n : ℕ)
    → ((n < 10) × (length (str n) ≡ 1)) ⊎ ((10 ≤ n) × (length (str n) ≡ length (str (n / 10)) + 1))
length-str-cases n = elim (Bool-cases (ltb n 10)) [
  | inl small ↦ let h = (ltb_iff n 10).0 small in inl (h, length-str_small n h)
  | inr big ↦ let h : 10 ≤ n = ground arith in inr (h, length-str_step n h)
]

pub length-str_pos : (n : ℕ) → 1 ≤ length (str n)
length-str_pos n = omega (arith, length-str-cases n)

ten_pow_pos : (k : ℕ) → 1 ≤ 10 ^ k
ten_pow_pos zero = omega arith
ten_pow_pos (suc k) = omega (arith, ten_pow_pos k, pow-suc 10 k)

-- A number has at most `k + 1` digits exactly if it is below `10 ^ (k + 1)`.
pub length-str-le_iff : (k n : ℕ) → (length (str n) ≤ suc k) ↔ (n < 10 ^ suc k)
length-str-le_iff zero n = (
  (λ h. omega (arith, length-str-cases n, length-str_pos (n / 10))),
  (λ h. omega (arith, length-str-cases n)),
)
length-str-le_iff (suc k) n = elim (length-str-cases n) [
  | inl (small, e) ↦
      ((λ h. omega (arith, ten_pow_pos (suc k), pow-suc 10 (suc k))), (λ h. omega arith))
  | inr (big, e) ↦
      let ih = length-str-le_iff k (n / 10) in
      (
        (λ h. omega (arith, ih.0 (omega arith), pow-suc 10 (suc k))),
        (λ h. omega (arith, ih.1 (omega (arith, pow-suc 10 (suc k))))),
      )
]

-- The first `k + 1` digits of a number are the number with its last digits cut off, and what is
-- left has exactly `k + 1` digits.
abbrev Cut : ℕ → ℕ → Type 0
Cut k n =
    (j : ℕ) × (prefix (suc k) n ≡ n / 10 ^ j)
    × (10 ^ k ≤ prefix (suc k) n)
    × (prefix (suc k) n < 10 ^ suc k)

prefix-div_short : (k n : ℕ) → 10 ^ k ≤ n → n < 10 ^ suc k → Cut k n
prefix-div_short k n lo hi =
    let same = prefix_all (suc k) n ((length-str-le_iff k n).1 hi) in
    (0, same ∙ sym (div-one n), omega (arith, same), omega (arith, same))

long : (k n : ℕ) → 10 ^ suc k ≤ n → suc k < length (str n)
long k n hi = elim (Bool-cases (leb (length (str n)) (suc k))) [
  | inl short ↦
      absurd (omega (arith, (length-str-le_iff k n).0 ((leb_iff (length (str n)) (suc k)).0 short)))
  | inr more ↦ ground arith
]

prefix-div_long : (k n : ℕ) → 10 ^ suc k ≤ n → Cut k (n / 10) → Cut k n
prefix-div_long k n hi (j, e, lo, up) =
    let step = prefix_drop (suc k) n (long k n hi) (omega (arith, ten_pow_pos k, pow-suc 10 k)) in
    (
      suc j,
      step ∙ e ∙ div-div-eq-div-mul n 10 (10 ^ j) ∙ ap (λ t. n / t) (sym (pow-succ' 10 j)),
      omega (arith, step),
      omega (arith, step),
    )

prefix-div_fuel : (k f n : ℕ) → n ≤ f → 10 ^ k ≤ n → Cut k n
prefix-div_fuel k zero n h lo = absurd (omega (arith, ten_pow_pos k))
prefix-div_fuel k (suc f) n h lo = elim (Bool-cases (ltb n (10 ^ suc k))) [
  | inl small ↦ prefix-div_short k n lo ((ltb_iff n (10 ^ suc k)).0 small)
  | inr big ↦
      let hi : 10 ^ suc k ≤ n = ground arith in
      prefix-div_long k n hi
        (prefix-div_fuel k f (n / 10) (omega (arith, ten_pow_pos k)) (omega (arith, pow-suc 10 k)))
]

pub prefix-div :
    (k n : ℕ)
    → 10 ^ k ≤ n
    → (j : ℕ) × (prefix (suc k) n ≡ n / 10 ^ j)
      × (10 ^ k ≤ prefix (suc k) n)
      × (prefix (suc k) n < 10 ^ suc k)
prefix-div k n lo = prefix-div_fuel k n n (omega arith) lo
