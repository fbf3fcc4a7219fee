-- ===== src/Prelude/Memory.antt =====
-- Memory as the code reads it: a pointer is the list of the bytes from it to the end of its
-- buffer, and a read past the end is a fault, `none`.
use Prim.Native.Nat.{ℕ, zero, suc, ◌≤◌, ◌<◌}
use mathlib.Core.Path.{◌≡◌, refl}
use mathlib.Core.List.{List, [], ◌∷◌}
use mathlib.Core.Option.{Option, none, some}
use mathlib.Core.Bool.{Bool, true, false}
use native.Mathlib.Omega.{arith}
use minimal_mpegts_std_impl.Prelude.Tests.{◌>>=◌, leb, if◌then◌else◌}
use minimal_mpegts_std_impl.Prelude.Lists.{
  length, get_elem?, get_or, take, get_elem?-eq-get_or, All,
}

-- `data[i]`
abbrev pub read : List ℕ → ℕ → Option ℕ
read p i = get_elem? p i

-- The `n` bytes from a pointer on, as `insert`, `assign` and `memcpy` read them.
pub read_span : List ℕ → ℕ → Option (List ℕ)
read_span p n = if leb n (length p) then some (take n p) else none

abbrev pub byte : List ℕ → ℕ → ℕ
byte p i = get_or p i 0

pub read-byte : (p : List ℕ) (i : ℕ) → i < length p → read p i ≡ some (byte p i)
read-byte p i h = get_elem?-eq-get_or p i 0 h

pub read_span-take : (p : List ℕ) (n : ℕ) → n ≤ length p → read_span p n ≡ some (take n p)
unfolding read_span
read_span-take p n h = ground arith

-- Every element is a value of `uint8_t`.
abbrev pub IsBytes : List ℕ → Type 0
IsBytes = All (λ b. b < 256)

-- Total correctness: the computation touches only its memory, and its result satisfies `P`.
abbrev pub Returns {ℓ} : {A : Type ℓ} → Option A → (A → Type 0) → Type 0
Returns none P = ⊥
Returns (some a) P = P a

pub Returns-mono {ℓ} :
    {A : Type ℓ} (P Q : A → Type 0) (o : Option A)
    → Returns o P
    → ((a : A) → P a → Q a)
    → Returns o Q
Returns-mono P Q (some a) r f = f a r
Returns-mono P Q none r f = r

pub Returns->>= {ℓ κ} :
    {A : Type ℓ} {B : Type κ} (P : A → Type 0) (Q : B → Type 0) (o : Option A) (f : A → Option B)
    → Returns o P
    → ((a : A) → P a → Returns (f a) Q)
    → Returns (o >>= f) Q
Returns->>= P Q (some a) f r k = k a r
Returns->>= P Q none f r k = r

pub byte-lt : (p : List ℕ) (i : ℕ) → IsBytes p → byte p i < 256
byte-lt [] i h = omega arith
byte-lt (b ∷ p) zero h = h.0
byte-lt (b ∷ p) (suc i) h = byte-lt p i h.1

pub Returns-if {ℓ} :
    {A : Type ℓ} (P : A → Type 0) (b : Bool) (x y : Option A)
    → (b ≡ true → Returns x P)
    → (b ≡ false → Returns y P)
    → Returns (if b then x else y) P
Returns-if P true x y f g = f refl
Returns-if P false x y f g = g refl

pub read_span_returns :
    (p : List ℕ) (n : ℕ) → n ≤ length p → Returns (read_span p n) (λ bytes. bytes ≡ take n p)
read_span_returns p n h = rw (read_span-take p n h) refl

pub Returns-value {ℓ} :
    {A : Type ℓ} (P : A → Type 0) (o : Option A) → Returns o P → (a : A) × (o ≡ some a) × P a
Returns-value P (some a) h = (a, refl, h)
Returns-value P none h = elim h [ ]

pub read_behind : (p : List ℕ) (i : ℕ) → length p ≤ i → read p i ≡ none
read_behind [] i h = refl
read_behind (b ∷ p) zero h = absurd (omega arith)
read_behind (b ∷ p) (suc i) h = read_behind p i (omega arith)

-- A computation that returns, and what it returns.
pub Returns-result {ℓ κ} :
    {A : Type ℓ} {B : Type κ} (P : A → Type 0) (Q : B → Type 0) (o : Option A) (f : A → Option B)
    → Returns o P
    → ((a : A) → o ≡ some a → Returns (f a) Q)
    → Returns (o >>= f) Q
Returns-result P Q (some a) f r k = k a refl
Returns-result P Q none f r k = r

pub Returns-both {ℓ} :
    {A : Type ℓ} (P Q : A → Type 0) (o : Option A)
    → Returns o P
    → Returns o Q
    → Returns o (λ a. P a × Q a)
Returns-both P Q (some a) h k = (h, k)
Returns-both P Q none h k = h
