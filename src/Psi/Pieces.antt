-- ===== src/Psi/Pieces.antt =====
-- What one piece of a section adds to a `PSIAccumulator`.
use minimal_mpegts_std_impl.Prelude.{
  ℕ, zero, suc, ◌+◌, ◌≤◌, ◌<◌, ◌≡◌, ◌==◌, refl, sym, ap, ◌∙◌, Bool, true, false, inl, inr, some,
  List, [], ◌∷◌, ◌++◌, arith, Returns, Returns-if, byte, read-byte, read_span-take, length,
  length-append, take-append, ltb, leb, ◌&&◌, if◌then◌else◌, Bool-cases,
}
use mathlib.Core.List.{append-nil, append_assoc}
use minimal_mpegts_std_impl.Psi.Section.{section_length_of}
use minimal_mpegts_std_impl.Psi.Accumulator.{
  PsiAccumulator, update_expected, check_complete, append_data,
}

-- As many bytes as the length field announces.
pub record IsSection (sec : List ℕ) : Type 0 where
  pub has_length : 3 ≤ length sec
  pub announced : 3 + section_length_of (byte sec 1) (byte sec 2) ≡ length sec

-- The length that the accumulator expects when it has `n` bytes of the section.
abbrev pub expected_at : List ℕ → ℕ → ℕ
expected_at sec n = if leb 3 n then length sec else 0

-- The accumulator has collected the first bytes of a section, `buf`, but not all.
pub record IsPartial (sec buf : List ℕ) (a : PsiAccumulator) : Type 0 where
  pub holds : a.buffer ≡ buf
  pub is_synced : a.synced ≡ true
  pub is_open : a.complete ≡ false
  pub expects : a.expected_length ≡ expected_at sec (length buf)

byte-append : (xs ys : List ℕ) (i : ℕ) → i < length xs → byte (xs ++ ys) i ≡ byte xs i
byte-append [] ys i h = absurd (omega arith)
byte-append (x ∷ xs) ys zero h = refl
byte-append (x ∷ xs) ys (suc i) h = byte-append xs ys i (omega arith)

update_expected_lem :
    (a : PsiAccumulator) (sec rest : List ℕ) (n : ℕ)
    → IsSection sec
    → a.buffer ++ rest ≡ sec
    → n ≤ length a.buffer
    → a.expected_length ≡ expected_at sec n
    → update_expected a ≡ some (record a { expected_length = expected_at sec (length a.buffer) })
unfolding update_expected
update_expected_lem a sec rest n s e l x = elim (Bool-cases (leb 3 (length a.buffer))) [
  | inr few ↦ let z : a.expected_length ≡ 0 = ground arith in rw (few, z) refl
  | inl many ↦
      let b1 : byte sec 1 ≡ byte a.buffer 1 =
        rw (sym e) (byte-append a.buffer rest 1 (ground arith)) in
      let b2 : byte sec 2 ≡ byte a.buffer 2 =
        rw (sym e) (byte-append a.buffer rest 2 (ground arith)) in
      let f : 3 + section_length_of (byte a.buffer 1) (byte a.buffer 2) ≡ length sec =
        rw (b1, b2) at s.announced in
      let r1 = read-byte a.buffer 1 (ground arith) in
      let r2 = read-byte a.buffer 2 (ground arith) in
      elim (Bool-cases (a.expected_length == 0)) [
        | inl z ↦ rw (many, z, r1, r2, f) refl
        | inr z ↦
            let y : a.expected_length ≡ length sec = ground arith in
            rw (many, z) (ap (λ (k : ℕ). some (record a { expected_length = k })) y)
      ]
]

-- After a piece: a report of the whole section when nothing is left of it, no report before.
abbrev pub AfterPiece : List ℕ → List ℕ → List ℕ → Bool × PsiAccumulator → Type 0
AfterPiece sec buf [] r =
    (r.0 ≡ true) × (r.1.complete ≡ true) × (r.1.buffer ≡ sec) × (r.1.expected_length ≡ length sec)
AfterPiece sec buf (x ∷ rest) r = (r.0 ≡ false) × IsPartial sec buf r.1

check_complete_lem :
    (a : PsiAccumulator) (sec buf rest : List ℕ)
    → IsSection sec
    → buf ++ rest ≡ sec
    → IsPartial sec buf a
    → AfterPiece sec buf rest (check_complete a)
check_complete_lem a sec buf [] s e p =
    let b : buf ≡ sec = sym (append-nil buf) ∙ e in
    let h : a.buffer ≡ sec = p.holds ∙ b in
    let l : length a.buffer ≡ length sec = ap length h in
    let lb : length buf ≡ length sec = ap length b in
    let has = s.has_length in
    let want : a.expected_length ≡ length sec = let x = p.expects in ground arith in
    let first : ltb 0 a.expected_length ≡ true = ground arith in
    let second : leb a.expected_length (length a.buffer) ≡ true = ground arith in
    rw (first, second) (refl, refl, h, want)
check_complete_lem a sec buf (x ∷ rest) s e p =
    let l : length buf + length (x ∷ rest) ≡ length sec =
      sym (length-append buf (x ∷ rest)) ∙ ap length e in
    let lb : length a.buffer ≡ length buf = ap length p.holds in
    let few : (ltb 0 a.expected_length && leb a.expected_length (length a.buffer)) ≡ false =
      let y = p.expects in ground arith in
    rw few (refl, p)

pub append_data_piece :
    (a : PsiAccumulator) (sec buf piece more rest : List ℕ)
    → IsSection sec
    → buf ++ (piece ++ rest) ≡ sec
    → IsPartial sec buf a
    → Returns (append_data a (piece ++ more) (length piece)) (AfterPiece sec (buf ++ piece) rest)
unfolding append_data
append_data_piece a sec buf piece more rest s e p =
    let l : length piece ≤ length (piece ++ more) = omega (arith, length-append piece more) in
    let a2 : PsiAccumulator = record a { buffer = a.buffer ++ piece } in
    let e2 : (a.buffer ++ piece) ++ rest ≡ sec = rw (p.holds, append_assoc buf piece rest) e in
    let u =
      update_expected_lem a2 sec rest (length buf) s e2
        (omega (arith, ap length p.holds, length-append a.buffer piece)) p.expects in
    Returns-if (AfterPiece sec (buf ++ piece) rest) a.synced _ _
      (λ on.
        rw (read_span-take (piece ++ more) (length piece) l, take-append piece more, u)
          (check_complete_lem (record a2 { expected_length = expected_at sec (length a2.buffer) })
            sec (buf ++ piece) rest s (append_assoc buf piece rest ∙ e)
            (record {
              holds = ap (λ b. b ++ piece) p.holds;
              is_synced = on;
              is_open = p.is_open;
              expects = ap (λ (b : List ℕ). expected_at sec (length (b ++ piece))) p.holds;
            })))
      (λ off. let on = p.is_synced in absurd (ground arith))
