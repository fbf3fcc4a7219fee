-- ===== src/Prelude/Xor.antt =====
-- Laws of the native exclusive or, from its recursion on binary digits.
use Prim.Native.Nat.{
  ℕ, zero, suc, ◌+◌, ◌*◌, ◌/◌, ◌%◌, ◌^◌, ◌≤◌, ◌<◌, digits, differ, bit_xor, bit_xor-bitwise,
}
use mathlib.Core.Path.{◌≡◌, refl, sym, ap, ◌∙◌}
use native.Mathlib.Nat.{pow-suc}
use native.Mathlib.Omega.{arith}

abbrev xor_digits : ℕ → ℕ → ℕ → ℕ
xor_digits n a b = digits (λ y. y) differ n a b

-- Any fuel that covers the first number serves.
xor_digits-any : (n m a b : ℕ) → a ≤ n → a ≤ m → xor_digits n a b ≡ xor_digits m a b
xor_digits-any zero zero a b p q = refl
xor_digits-any zero (suc m) zero b p q = refl
xor_digits-any zero (suc m) (suc a) b p q = absurd (omega arith)
xor_digits-any (suc n) zero zero b p q = refl
xor_digits-any (suc n) zero (suc a) b p q = absurd (omega arith)
xor_digits-any (suc n) (suc m) zero b p q = refl
xor_digits-any (suc n) (suc m) (suc a) b p q =
    omega (arith, xor_digits-any n m (suc a / 2) (b / 2) (omega arith) (omega arith))

differ_lem : (x y : ℕ) → x < 2 → y < 2 → differ x y ≡ (x + y) % 2
differ_lem zero y h k = omega arith
differ_lem (suc zero) zero h k = omega arith
differ_lem (suc zero) (suc zero) h k = omega arith
differ_lem (suc zero) (suc (suc y)) h k = absurd (omega arith)
differ_lem (suc (suc x)) y h k = absurd (omega arith)

pub zero-bit_xor : (b : ℕ) → bit_xor 0 b ≡ b
zero-bit_xor b = bit_xor-bitwise 0 b

bit_xor_step : (a b : ℕ) → bit_xor a b ≡ bit_xor (a / 2) (b / 2) * 2 + (a + b) % 2
bit_xor_step zero b = omega (arith, zero-bit_xor b, zero-bit_xor (b / 2))
bit_xor_step (suc a) b = omega (
  arith,
  bit_xor-bitwise (suc a) b,
  bit_xor-bitwise (suc a / 2) (b / 2),
  xor_digits-any a (suc a / 2) (suc a / 2) (b / 2) (omega arith) (omega arith),
  differ_lem (suc a % 2) (b % 2) (omega arith) (omega arith),
)

bit_xor-half : (a b : ℕ) → bit_xor a b / 2 ≡ bit_xor (a / 2) (b / 2)
bit_xor-half a b = omega (arith, bit_xor_step a b)

bit_xor-parity : (a b : ℕ) → bit_xor a b % 2 ≡ (a + b) % 2
bit_xor-parity a b = omega (arith, bit_xor_step a b)

xor_zero_upto : (n a : ℕ) → a ≤ n → bit_xor a 0 ≡ a
xor_zero_upto n zero h = zero-bit_xor 0
xor_zero_upto zero (suc a) h = absurd (omega arith)
xor_zero_upto (suc n) (suc a) h =
    omega (arith, bit_xor_step (suc a) 0, xor_zero_upto n (suc a / 2) (omega arith))

pub bit_xor-zero : (a : ℕ) → bit_xor a 0 ≡ a
bit_xor-zero a = xor_zero_upto a a (omega arith)

xor_comm_upto : (n a b : ℕ) → a ≤ n → bit_xor a b ≡ bit_xor b a
xor_comm_upto n zero b h = zero-bit_xor b ∙ sym (bit_xor-zero b)
xor_comm_upto zero (suc a) b h = absurd (omega arith)
xor_comm_upto (suc n) (suc a) b h = omega (
  arith,
  bit_xor_step (suc a) b,
  bit_xor_step b (suc a),
  xor_comm_upto n (suc a / 2) (b / 2) (omega arith),
)

pub bit_xor_comm : (a b : ℕ) → bit_xor a b ≡ bit_xor b a
bit_xor_comm a b = xor_comm_upto a a b (omega arith)

xor_assoc_upto : (n a b c : ℕ) → a ≤ n → bit_xor (bit_xor a b) c ≡ bit_xor a (bit_xor b c)
xor_assoc_upto n zero b c h =
    ap (λ (x : ℕ). bit_xor x c) (zero-bit_xor b) ∙ sym (zero-bit_xor (bit_xor b c))
xor_assoc_upto zero (suc a) b c h = absurd (omega arith)
xor_assoc_upto (suc n) (suc a) b c h =
    let ih = xor_assoc_upto n (suc a / 2) (b / 2) (c / 2) (omega arith) in
    let l : bit_xor (bit_xor (suc a) b / 2) (c / 2)
        ≡ bit_xor (bit_xor (suc a / 2) (b / 2)) (c / 2) =
      ap (λ (x : ℕ). bit_xor x (c / 2)) (bit_xor-half (suc a) b) in
    let r : bit_xor (suc a / 2) (bit_xor b c / 2) ≡ bit_xor (suc a / 2) (bit_xor (b / 2) (c / 2)) =
      ap (λ (x : ℕ). bit_xor (suc a / 2) x) (bit_xor-half b c) in
    omega (
      arith,
      bit_xor_step (bit_xor (suc a) b) c,
      bit_xor_step (suc a) (bit_xor b c),
      bit_xor-parity (suc a) b,
      bit_xor-parity b c,
      ih,
      l,
      r,
    )

pub bit_xor_assoc : (a b c : ℕ) → bit_xor (bit_xor a b) c ≡ bit_xor a (bit_xor b c)
bit_xor_assoc a b c = xor_assoc_upto a a b c (omega arith)

-- The middle two of four change places.
pub bit_xor-swap :
    (a b c d : ℕ) → bit_xor (bit_xor a b) (bit_xor c d) ≡ bit_xor (bit_xor a c) (bit_xor b d)
bit_xor-swap a b c d =
    bit_xor_assoc a b (bit_xor c d)
    ∙ ap (λ (x : ℕ). bit_xor a x)
        (sym (bit_xor_assoc b c d)
          ∙ ap (λ (x : ℕ). bit_xor x d) (bit_xor_comm b c)
          ∙ bit_xor_assoc c b d)
    ∙ sym (bit_xor_assoc a c (bit_xor b d))

twice_pow : (q k : ℕ) → q * 2 ^ suc k ≡ 2 * (q * 2 ^ k)
twice_pow q k = omega (arith, ap (λ (t : ℕ). q * t) (pow-suc 2 k))

-- The high and the low fields of `k` bits meet apart.
pub bit_xor-fields :
    (k q r q' r' : ℕ)
    → r < 2 ^ k
    → r' < 2 ^ k
    → bit_xor (q * 2 ^ k + r) (q' * 2 ^ k + r') ≡ bit_xor q q' * 2 ^ k + bit_xor r r'
bit_xor-fields zero q r q' r' h h' =
    let z : r ≡ 0 = omega arith in
    let z' : r' ≡ 0 = omega arith in
    let e : q * 2 ^ 0 + 0 ≡ q = omega arith in
    let e' : q' * 2 ^ 0 + 0 ≡ q' = omega arith in rw (z, z', e, e') (omega (arith, zero-bit_xor 0))
bit_xor-fields (suc k) q r q' r' h h' =
    let p = pow-suc 2 k in
    let t = twice_pow q k in
    let t' = twice_pow q' k in
    let a : (q * 2 ^ suc k + r) / 2 ≡ q * 2 ^ k + r / 2 = omega (arith, t) in
    let a' : (q' * 2 ^ suc k + r') / 2 ≡ q' * 2 ^ k + r' / 2 = omega (arith, t') in
    let ih = bit_xor-fields k q (r / 2) q' (r' / 2) (omega (arith, p)) (omega (arith, p)) in
    let s = rw (a, a', ih) at (bit_xor_step (q * 2 ^ suc k + r) (q' * 2 ^ suc k + r')) in
    omega (arith, s, t, t', bit_xor_step r r', twice_pow (bit_xor q q') k)
