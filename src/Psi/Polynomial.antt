-- ===== src/Psi/Polynomial.antt =====
-- CRC-32 of ISO/IEC 13818-1 from its polynomial, bit by bit, and the table-driven sum of the code.
use Prim.Native.Nat.{bit_xor}
use minimal_mpegts_std_impl.Prelude.{
  ℕ, zero, suc, ◌+◌, ◌*◌, ◌/◌, ◌%◌, ◌^◌, ◌<◌, ◌≡◌, ◌==◌, refl, sym, ap, ap₂, subst, ◌∙◌, Bool, true,
  false, some, List, [], ◌∷◌, ◌++◌, arith, bit, get_or, length, IsBytes, if◌then◌else◌, ==_iff,
}
use minimal_mpegts_std_impl.Prelude.Xor.{
  bit_xor-zero, zero-bit_xor, bit_xor_comm, bit_xor-swap, bit_xor-fields,
}
use minimal_mpegts_std_impl.Psi.Crc.{crc32_table, crc_step, crc_loop, verify_crc32}
use minimal_mpegts_std_impl.Psi.Check.{
  bit_xor-lt, crc_step-lt, crc_loop-lt, bytes32, verify_crc32-bytes32,
}

-- x^32 + x^26 + x^23 + x^22 + x^16 + x^12 + x^11 + x^10 + x^8 + x^7 + x^5 + x^4 + x^2 + x + 1
abbrev pub polynomial : ℕ
polynomial = 0x04C11DB7

-- One step of the division: the register moves up by one bit, and where a 1 leaves it at the top the
-- polynomial is subtracted.
abbrev pub divide_bit : ℕ → ℕ
divide_bit r = if bit r 31 then bit_xor (r * 2 % 2 ^ 32) polynomial else r * 2 % 2 ^ 32

abbrev pub divide_bits : ℕ → ℕ → ℕ
divide_bits zero r = r
divide_bits (suc n) r = divide_bits n (divide_bit r)

-- The remainder of a message, byte by byte: a byte meets the top of the register, and eight steps
-- follow.
abbrev pub remainder : ℕ → List ℕ → ℕ
remainder r [] = r
remainder r (b ∷ bs) = remainder (divide_bits 8 (bit_xor r (b * 2 ^ 24))) bs

-- The checksum: the remainder from a register of ones on.
abbrev pub polynomial_checksum : List ℕ → ℕ
polynomial_checksum bytes = remainder 0xFFFFFFFF bytes

divide_bit_lem :
    (p u : ℕ) → p < 2 → u < 2 ^ 31 → divide_bit (p * 2 ^ 31 + u) ≡ bit_xor (u * 2) (p * polynomial)
divide_bit_lem zero u h l =
    let off : bit (0 * 2 ^ 31 + u) 31 ≡ false = ground arith in
    let e : (0 * 2 ^ 31 + u) * 2 % 2 ^ 32 ≡ u * 2 = omega arith in
    rw (off, e) (sym (bit_xor-zero (u * 2)))
divide_bit_lem (suc zero) u h l =
    let on : bit (1 * 2 ^ 31 + u) 31 ≡ true = ground arith in
    let e : (1 * 2 ^ 31 + u) * 2 % 2 ^ 32 ≡ u * 2 = omega arith in rw (on, e) refl
divide_bit_lem (suc (suc p)) u h l = absurd (omega arith)

twice-bit_xor : (u v : ℕ) → bit_xor u v * 2 ≡ bit_xor (u * 2) (v * 2)
twice-bit_xor u v =
    let f = bit_xor-fields 1 u 0 v 0 (omega arith) (omega arith) in
    let a : u * 2 ^ 1 + 0 ≡ u * 2 = omega arith in
    let b : v * 2 ^ 1 + 0 ≡ v * 2 = omega arith in
    let g = rw (a, b) at f in omega (arith, g, bit_xor-zero 0)

times_polynomial :
    (p q : ℕ) → p < 2 → q < 2 → bit_xor p q * polynomial ≡ bit_xor (p * polynomial) (q * polynomial)
times_polynomial zero zero h l = refl
times_polynomial zero (suc zero) h l = refl
times_polynomial (suc zero) zero h l = refl
times_polynomial (suc zero) (suc zero) h l = refl
times_polynomial p (suc (suc q)) h l = absurd (omega arith)
times_polynomial (suc (suc p)) q h l = absurd (omega arith)

divide_bit-fields :
    (p u q v : ℕ)
    → p < 2
    → q < 2
    → u < 2 ^ 31
    → v < 2 ^ 31
    → divide_bit (bit_xor (p * 2 ^ 31 + u) (q * 2 ^ 31 + v))
      ≡ bit_xor (divide_bit (p * 2 ^ 31 + u)) (divide_bit (q * 2 ^ 31 + v))
divide_bit-fields p u q v hp hq hu hv =
    let f = bit_xor-fields 31 p u q v hu hv in
    ap divide_bit f
    ∙ divide_bit_lem (bit_xor p q) (bit_xor u v) (bit_xor-lt 1 p q hp hq) (bit_xor-lt 31 u v hu hv)
    ∙ ap₂ bit_xor (twice-bit_xor u v) (times_polynomial p q hp hq)
    ∙ bit_xor-swap (u * 2) (v * 2) (p * polynomial) (q * polynomial)
    ∙ sym (ap₂ bit_xor (divide_bit_lem p u hp hu) (divide_bit_lem q v hq hv))

-- The division is linear over exclusive or.
divide_bit-bit_xor :
    (x y : ℕ)
    → x < 2 ^ 32
    → y < 2 ^ 32
    → divide_bit (bit_xor x y) ≡ bit_xor (divide_bit x) (divide_bit y)
divide_bit-bit_xor x y hx hy =
    let ex : x / 2 ^ 31 * 2 ^ 31 + x % 2 ^ 31 ≡ x = omega arith in
    let ey : y / 2 ^ 31 * 2 ^ 31 + y % 2 ^ 31 ≡ y = omega arith in
    rw (ex, ey) at
      (divide_bit-fields (x / 2 ^ 31) (x % 2 ^ 31) (y / 2 ^ 31) (y % 2 ^ 31) (omega arith)
        (omega arith) (omega arith) (omega arith))

divide_bit-lt : (x : ℕ) → divide_bit x < 2 ^ 32
divide_bit-lt x =
    ground (arith, bit_xor-lt 32 (x * 2 % 2 ^ 32) polynomial (omega arith) (omega arith))

divide_bits-bit_xor :
    (n x y : ℕ)
    → x < 2 ^ 32
    → y < 2 ^ 32
    → divide_bits n (bit_xor x y) ≡ bit_xor (divide_bits n x) (divide_bits n y)
divide_bits-bit_xor zero x y hx hy = refl
divide_bits-bit_xor (suc n) x y hx hy =
    ap (divide_bits n) (divide_bit-bit_xor x y hx hy)
    ∙ divide_bits-bit_xor n (divide_bit x) (divide_bit y) (divide_bit-lt x) (divide_bit-lt y)

divide_bit-low : (u : ℕ) → u < 2 ^ 31 → divide_bit u ≡ u * 2
divide_bit-low u h =
    let off : bit u 31 ≡ false = ground arith in
    let e : u * 2 % 2 ^ 32 ≡ u * 2 = omega arith in rw (off, e) refl

low_step : (n u v : ℕ) → u < 2 ^ 31 → divide_bits n (u * 2) ≡ v → divide_bits (suc n) u ≡ v
low_step n u v h e = ap (divide_bits n) (divide_bit-low u h) ∙ e

-- Eight steps move 24 low bits up.
divide_bits-low : (l : ℕ) → l < 2 ^ 24 → divide_bits 8 l ≡ l * 2 ^ 8
divide_bits-low l h = low_step 7 l _ (omega arith) (
    low_step 6 (l * 2) _ (omega arith) (
      low_step 5 (l * 2 * 2) _ (omega arith) (
        low_step 4 (l * 2 * 2 * 2) _ (omega arith) (
          low_step 3 (l * 2 * 2 * 2 * 2) _ (omega arith) (
            low_step 2 (l * 2 * 2 * 2 * 2 * 2) _ (omega arith) (
              low_step 1 (l * 2 * 2 * 2 * 2 * 2 * 2) _ (omega arith)
                (low_step 0 (l * 2 * 2 * 2 * 2 * 2 * 2 * 2) _ (omega arith) (omega arith))))))))

-- Every entry of the table is what eight steps make of its index at the top of the register.
table_agrees : ℕ → List ℕ → Bool
table_agrees i [] = true
table_agrees i (t ∷ ts) =
    let rest = table_agrees (i + 1) ts in if divide_bits 8 (i * 2 ^ 24) == t then rest else false

table_agrees-crc32_table : table_agrees 0 crc32_table ≡ true
unfolding table_agrees crc32_table
table_agrees-crc32_table = refl

both_true : (c r : Bool) → (if c then r else false) ≡ true → (c ≡ true) × (r ≡ true)
both_true true r h = (refl, h)
both_true false r h = absurd (ground arith)

entry_agrees :
    (ts : List ℕ) (n i : ℕ)
    → table_agrees n ts ≡ true
    → i < length ts
    → get_or ts i 0 ≡ divide_bits 8 ((n + i) * 2 ^ 24)
unfolding table_agrees
entry_agrees [] n i h l = absurd (omega arith)
entry_agrees (t ∷ ts) n zero h l =
    let both = both_true (divide_bits 8 (n * 2 ^ 24) == t) (table_agrees (n + 1) ts) h in
    let e : n + 0 ≡ n = omega arith in
    rw e (sym ((==_iff (divide_bits 8 (n * 2 ^ 24)) t).0 (both.0)))
entry_agrees (t ∷ ts) n (suc i) h l =
    let both = both_true (divide_bits 8 (n * 2 ^ 24) == t) (table_agrees (n + 1) ts) h in
    let e : n + suc i ≡ n + 1 + i = omega arith in
    rw e (entry_agrees ts (n + 1) i (both.1) (omega arith))

length-crc32_table : length crc32_table ≡ 256
unfolding crc32_table
length-crc32_table = refl

-- One step of the code's loop, on the fields of the register.
crc_step-fields :
    (h l b : ℕ)
    → h < 256
    → l < 2 ^ 24
    → b < 256
    → crc_step (h * 2 ^ 24 + l) b ≡ bit_xor (l * 2 ^ 8) (get_or crc32_table (bit_xor h b) 0)
unfolding crc_step
crc_step-fields h l b hh hl hb =
    let lt = bit_xor-lt 8 h b hh hb in
    let eh : (h * 2 ^ 24 + l) / 2 ^ 24 ≡ h = omega arith in
    let el : (h * 2 ^ 24 + l) * 2 ^ 8 % 2 ^ 32 ≡ l * 2 ^ 8 = omega arith in
    let et : bit_xor h b % 256 ≡ bit_xor h b = omega arith in rw (eh, el, et) refl

-- The byte meets the top of the register.
bit_xor-top :
    (h l b : ℕ)
    → l < 2 ^ 24
    → bit_xor (h * 2 ^ 24 + l) (b * 2 ^ 24) ≡ bit_xor (bit_xor h b * 2 ^ 24) l
bit_xor-top h l b hl =
    let t = bit_xor h b in
    let eb : b * 2 ^ 24 + 0 ≡ b * 2 ^ 24 = omega arith in
    let et : t * 2 ^ 24 + 0 ≡ t * 2 ^ 24 = omega arith in
    let el : 0 * 2 ^ 24 + l ≡ l = omega arith in
    rw (eb, bit_xor-zero l) at (bit_xor-fields 24 h l b 0 hl (omega arith))
    ∙ sym (
        rw (et, el, bit_xor-zero t, zero-bit_xor l) at (bit_xor-fields 24 t 0 0 l (omega arith) hl))

-- One step of the table-driven sum is eight steps of the division.
crc_step-divide_bits :
    (h l b : ℕ)
    → h < 256
    → l < 2 ^ 24
    → b < 256
    → crc_step (h * 2 ^ 24 + l) b ≡ divide_bits 8 (bit_xor (h * 2 ^ 24 + l) (b * 2 ^ 24))
crc_step-divide_bits h l b hh hl hb =
    let t = bit_xor h b in
    let lt : t < 256 = bit_xor-lt 8 h b hh hb in
    let z : 0 + t ≡ t = omega arith in
    let entry =
      rw z at (
        entry_agrees crc32_table 0 t table_agrees-crc32_table
          (omega (arith, length-crc32_table))) in
    crc_step-fields h l b hh hl hb
    ∙ ap (bit_xor (l * 2 ^ 8)) entry
    ∙ bit_xor_comm (l * 2 ^ 8) (divide_bits 8 (t * 2 ^ 24))
    ∙ sym (
        ap (divide_bits 8) (bit_xor-top h l b hl)
        ∙ divide_bits-bit_xor 8 (t * 2 ^ 24) l (omega arith) (omega arith)
        ∙ ap (bit_xor (divide_bits 8 (t * 2 ^ 24))) (divide_bits-low l hl))

crc_loop-remainder :
    (bytes : List ℕ) (crc : ℕ)
    → IsBytes bytes
    → crc < 2 ^ 32
    → crc_loop crc bytes ≡ remainder crc bytes
unfolding crc_loop
crc_loop-remainder [] crc is h = refl
crc_loop-remainder (b ∷ bs) crc is h =
    let e : crc / 2 ^ 24 * 2 ^ 24 + crc % 2 ^ 24 ≡ crc = omega arith in
    let one =
      crc_step-divide_bits (crc / 2 ^ 24) (crc % 2 ^ 24) b (omega arith) (omega arith) (is.0) in
    let same = subst (λ (x : ℕ). crc_step x b ≡ divide_bits 8 (bit_xor x (b * 2 ^ 24))) e one in
    crc_loop-remainder bs (crc_step crc b) (is.1) (crc_step-lt crc b)
    ∙ ap (λ (x : ℕ). remainder x bs) same

pub polynomial_checksum-lt : (bytes : List ℕ) → IsBytes bytes → polynomial_checksum bytes < 2 ^ 32
polynomial_checksum-lt bytes is =
    subst (λ (x : ℕ). x < 2 ^ 32) (crc_loop-remainder bytes 0xFFFFFFFF is (omega arith))
      (crc_loop-lt bytes 0xFFFFFFFF (omega arith))

-- `verifyCRC32` on `bytes` with the four bytes of a 32-bit number behind them, the highest first,
-- accepts exactly when that number is the CRC-32 of `bytes`, whatever follows: the remainder of the
-- division by the polynomial 0x04C11DB7, bit by bit from a register of ones.
pub verify_crc32-polynomial_checksum :
    (bytes : List ℕ) (c : ℕ) (rest : List ℕ)
    → IsBytes bytes
    → c < 2 ^ 32
    → verify_crc32 (bytes ++ (bytes32 c ++ rest)) (length bytes + 4)
      ≡ some (polynomial_checksum bytes == c)
verify_crc32-polynomial_checksum bytes c rest is h =
    verify_crc32-bytes32 bytes c rest h
    ∙ ap (λ (x : ℕ). some (x == c)) (crc_loop-remainder bytes 0xFFFFFFFF is (omega arith))
