-- ===== src/Psi/Check.antt =====
-- The checksum of a section: what `verifyCRC32` accepts.
use Prim.Native.Nat.{digits, differ, bit_xor, bit_xor-bitwise}
use minimal_mpegts_std_impl.Prelude.{
  ℕ, zero, suc, ◌+◌, ◌-◌, ◌*◌, ◌/◌, ◌%◌, ◌^◌, ◌≤◌, ◌<◌, ◌≡◌, ◌==◌, refl, Bool, true, false, some,
  List, [], ◌∷◌, ◌++◌, arith, read, read_span-take, get_or, length, length-append, take-append, ltb,
  if◌then◌else◌,
}
use native.Mathlib.Nat.{pow-suc}
use minimal_mpegts_std_impl.Psi.Crc.{
  crc32_table, crc_step, crc_loop, calculate_crc32, read32, verify_crc32,
}

-- A bitwise operation on numbers of `k` digits has at most `k` digits.
differ_bit : (x y : ℕ) → x < 2 → y < 2 → differ x y < 2
differ_bit zero y h k = k
differ_bit (suc zero) zero h k = omega arith
differ_bit (suc zero) (suc zero) h k = omega arith
differ_bit (suc zero) (suc (suc y)) h k = absurd (omega arith)
differ_bit (suc (suc x)) y h k = absurd (omega arith)

digits-lt : (k n a b : ℕ) → a < 2 ^ k → b < 2 ^ k → digits (λ y. y) differ n a b < 2 ^ k
digits-lt k zero a b h l = l
digits-lt k (suc n) zero b h l = l
digits-lt zero (suc n) (suc a) b h l = absurd (omega arith)
digits-lt (suc k) (suc n) (suc a) b h l =
    let e : 2 ^ suc k ≡ 2 ^ k * 2 = pow-suc 2 k in
    let r = digits-lt k n (suc a / 2) (b / 2) (omega arith) (omega arith) in
    let d = differ_bit (suc a % 2) (b % 2) (omega arith) (omega arith) in omega (arith, e, r, d)

pub bit_xor-lt : (k a b : ℕ) → a < 2 ^ k → b < 2 ^ k → bit_xor a b < 2 ^ k
bit_xor-lt k a b h l = rw (bit_xor-bitwise a b) (digits-lt k a a b h l)

-- The entries of the table are 32-bit words.
abbrev all_below : ℕ → List ℕ → Bool
all_below m [] = true
all_below m (x ∷ xs) = let rest = all_below m xs in if ltb x m then rest else false

all_below-crc32_table : all_below (2 ^ 32) crc32_table ≡ true
unfolding crc32_table
all_below-crc32_table = refl

get_or-lt : (m : ℕ) (xs : List ℕ) (i : ℕ) → 0 < m → all_below m xs ≡ true → get_or xs i 0 < m
get_or-lt m [] i z h = z
get_or-lt m (x ∷ xs) zero z h = ground arith
get_or-lt m (x ∷ xs) (suc i) z h = get_or-lt m xs i z (ground arith)

pub crc_step-lt : (crc b : ℕ) → crc_step crc b < 2 ^ 32
unfolding crc_step
crc_step-lt crc b =
    bit_xor-lt 32 _ _ (omega arith)
      (get_or-lt (2 ^ 32) crc32_table _ (omega arith) all_below-crc32_table)

pub crc_loop-lt : (bytes : List ℕ) (crc : ℕ) → crc < 2 ^ 32 → crc_loop crc bytes < 2 ^ 32
unfolding crc_loop
crc_loop-lt [] crc h = h
crc_loop-lt (b ∷ bs) crc h = crc_loop-lt bs (crc_step crc b) (crc_step-lt crc b)

-- A uint32_t as four bytes, the highest first.
abbrev pub bytes32 : ℕ → List ℕ
bytes32 v = (v / 2 ^ 24 % 256) ∷ (v / 2 ^ 16 % 256) ∷ (v / 2 ^ 8 % 256) ∷ (v % 256) ∷ []

-- The checksum that the bytes of a section ask for.
abbrev pub checksum : List ℕ → ℕ
checksum bytes = crc_loop 0xFFFFFFFF bytes

pub read-append : (xs ys : List ℕ) (i : ℕ) → read (xs ++ ys) (length xs + i) ≡ read ys i
read-append [] ys i = let e : 0 + i ≡ i = omega arith in rw e refl
read-append (x ∷ xs) ys i =
    let e : suc (length xs) + i ≡ suc (length xs + i) = omega arith in rw e (read-append xs ys i)

pub read32-bytes32 :
    (xs : List ℕ) (v : ℕ) (rest : List ℕ)
    → v < 2 ^ 32
    → read32 (xs ++ (bytes32 v ++ rest)) (length xs) ≡ some v
read32-bytes32 xs v rest h =
    let z : length xs + 0 ≡ length xs = omega arith in
    let e0 = rw z at (read-append xs (bytes32 v ++ rest) 0) in
    let e1 = read-append xs (bytes32 v ++ rest) 1 in
    let e2 = read-append xs (bytes32 v ++ rest) 2 in
    let e3 = read-append xs (bytes32 v ++ rest) 3 in rw (e0, e1, e2, e3) (ground arith)

-- `verifyCRC32` on `bytes` with the four bytes of a 32-bit number behind them, the highest first,
-- accepts exactly when that number is the checksum of `bytes`, whatever follows.
pub verify_crc32-bytes32 :
    (bytes : List ℕ) (c : ℕ) (rest : List ℕ)
    → c < 2 ^ 32
    → verify_crc32 (bytes ++ (bytes32 c ++ rest)) (length bytes + 4) ≡ some (checksum bytes == c)
unfolding verify_crc32 calculate_crc32
verify_crc32-bytes32 bytes c rest h =
    let p : List ℕ = bytes ++ (bytes32 c ++ rest) in
    let e : length bytes + 4 - 4 ≡ length bytes = omega arith in
    let f : ltb (length bytes + 4) 4 ≡ false = ground arith in
    let l : length bytes ≤ length p = omega (arith, length-append bytes (bytes32 c ++ rest)) in
    rw
      (
        f,
        e,
        read32-bytes32 bytes c rest h,
        read_span-take p (length bytes) l,
        take-append bytes (bytes32 c ++ rest),
      )
      refl
