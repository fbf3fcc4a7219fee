-- ===== src/Psi/Reassembly.antt =====
-- A section split over packets: what `PSIAccumulator` makes of its pieces.
use minimal_mpegts_std_impl.Prelude.{
  ℕ, suc, ◌+◌, ◌-◌, ◌≤◌, ◌<◌, ◌≡◌, refl, ◌∙◌, Bool, true, false, Option, some, List, [], ◌∷◌, ◌++◌,
  arith, Returns, Returns->>=, Returns-mono, ◌>>=◌, read_span-take, length, length-append,
  take-length, drop-append, All, ltb,
}
use mathlib.Core.List.{append-nil, append_assoc}
use minimal_mpegts_std_impl.Psi.Accumulator.{
  PsiAccumulator, new_accumulator, reset, append_data, start_section, add_data, get_section,
}
use minimal_mpegts_std_impl.Psi.Pieces.{IsSection, IsPartial, AfterPiece, append_data_piece}

abbrev pub concat : List (List ℕ) → List ℕ
concat [] = []
concat (c ∷ cs) = c ++ concat cs

abbrev pub IsPiece : List ℕ → Type 0
IsPiece c = 0 < length c

-- Further payloads, one call of `addData` each, until a call reports a section: the report, the state
-- and the payloads that were not fed.
unfoldable pub feed_pieces :
    Bool → PsiAccumulator → List (List ℕ) → Option (Bool × PsiAccumulator × List (List ℕ))
feed_pieces true a cs = some (true, a, cs)
feed_pieces false a [] = some (false, a, [])
feed_pieces false a (c ∷ cs) = add_data a c (length c) false >>= λ r. feed_pieces r.0 r.1 cs

-- A report behind the last piece, with the whole section collected.
abbrev pub Whole : List ℕ → Bool × PsiAccumulator × List (List ℕ) → Type 0
Whole sec r =
    (r.0 ≡ true)
    × (r.2 ≡ [])
    × (r.1.complete ≡ true)
    × (r.1.buffer ≡ sec)
    × (r.1.expected_length ≡ length sec)

AfterPiece-Whole :
    (sec buf : List ℕ) (cs : List (List ℕ)) (r : Bool × PsiAccumulator)
    → IsSection sec
    → All IsPiece cs
    → buf ++ concat cs ≡ sec
    → AfterPiece sec buf (concat cs) r
    → Returns (feed_pieces r.0 r.1 cs) (Whole sec)
unfolding feed_pieces add_data
AfterPiece-Whole sec buf [] r s n e p = rw (p.0) (refl, refl, p.1, p.2, p.3)
AfterPiece-Whole sec buf ([] ∷ cs) r s n e p = absurd (omega (arith, n.0))
AfterPiece-Whole sec buf ((x ∷ c) ∷ cs) r s n e p =
    let h =
      rw (append-nil (x ∷ c)) at (append_data_piece r.1 sec buf (x ∷ c) [] (concat cs) s e p.1) in
    rw (p.0) (
      Returns->>= (AfterPiece sec (buf ++ x ∷ c) (concat cs)) (Whole sec)
        (append_data r.1 (x ∷ c) (length (x ∷ c))) _ h
        λ r' q.
          AfterPiece-Whole sec (buf ++ x ∷ c) cs r' s n.1 (append_assoc buf (x ∷ c) (concat cs) ∙ e)
            q)

-- The payload of a packet in which a section starts: the pointer, the bytes that it skips, the
-- section's first piece.
abbrev pub start_payload : List ℕ → List ℕ → List ℕ
start_payload skip c = length skip ∷ (skip ++ c)

start_section_piece :
    (a : PsiAccumulator) (sec skip c rest : List ℕ)
    → IsSection sec
    → IsPiece c
    → c ++ rest ≡ sec
    → Returns
        (add_data a (start_payload skip c) (length (start_payload skip c)) true)
        (AfterPiece sec c rest)
unfolding add_data start_section
start_section_piece a sec skip c rest s n e =
    let pos : ltb 0 (length (start_payload skip c)) ≡ true = ground arith in
    let l : length (skip ++ c) ≡ length skip + length c = length-append skip c in
    let inside : ltb (length skip) (length (start_payload skip c) - 1) ≡ true = ground arith in
    let size : length (start_payload skip c) - 1 - length skip ≡ length c = omega (arith, l) in
    let fresh : PsiAccumulator = record (reset a) { synced = true } in
    let p : IsPartial sec [] fresh = record {
      holds = refl;
      is_synced = refl;
      is_open = refl;
      expects = refl;
    } in
    let h = rw (append-nil c) at (append_data_piece fresh sec [] c [] rest s e p) in
    let one : 1 + length skip ≡ suc (length skip) = omega arith in
    rw (pos, inside, one, size, drop-append skip c, start_section) h

get_section_whole :
    (sec section : List ℕ) (a : PsiAccumulator)
    → a.complete ≡ true
    → a.buffer ≡ sec
    → a.expected_length ≡ length sec
    → get_section a section ≡ some (length sec, sec, new_accumulator)
unfolding get_section
get_section_whole sec section a c b e =
    let l : length sec ≤ length sec = omega arith in
    rw (c, b, e, read_span-take sec (length sec) l, take-length sec) refl

-- A section of a length that agrees with its length field, cut into a first piece, which stands behind
-- the pointer and the bytes that it skips, and further pieces, none empty, one in each payload: in
-- whatever state `addData` gets them, it reports a complete section at the last piece and not before,
-- and `getSection` then gives exactly the section's bytes and leaves an empty accumulator.
pub feed_pieces-start_payload :
    (a : PsiAccumulator) (sec skip c : List ℕ) (cs : List (List ℕ)) (section : List ℕ)
    → IsSection sec
    → IsPiece c
    → All IsPiece cs
    → c ++ concat cs ≡ sec
    → Returns
        (add_data a (start_payload skip c) (length (start_payload skip c)) true >>= λ r.
          feed_pieces r.0 r.1 cs)
        (λ r.
          (r.0 ≡ true)
          × (r.2 ≡ [])
          × (get_section r.1 section ≡ some (length sec, sec, new_accumulator)))
feed_pieces-start_payload a sec skip c cs section s n ns e =
    Returns->>= (AfterPiece sec c (concat cs)) _
      (add_data a (start_payload skip c) (length (start_payload skip c)) true) _
      (start_section_piece a sec skip c (concat cs) s n e)
      λ r q.
        Returns-mono (Whole sec) _ (feed_pieces r.0 r.1 cs) (AfterPiece-Whole sec c cs r s ns e q)
          λ w h. (h.0, h.1, get_section_whole sec section w.1 h.2 h.3 h.4)
