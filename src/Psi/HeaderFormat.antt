-- ===== src/Psi/HeaderFormat.antt =====
-- The bytes of the header of a long-form section, and `parseSectionHeader` on them.
use minimal_mpegts_std_impl.Prelude.{
  ℕ, ◌+◌, ◌*◌, ◌/◌, ◌%◌, ◌≤◌, ◌<◌, ◌≡◌, sym, ap, Bool, true, false, some, List, [], ◌∷◌, ◌++◌,
  arith, bit, ltb, join, low_bits, shr,
}
use minimal_mpegts_std_impl.Psi.Section.{
  PsiSectionHeader, section_length_of, new_section_header, parse_section_header, parse_long_form,
}

abbrev pub current_bit : Bool → ℕ
current_bit true = 1
current_bit false = 0

-- The seven bytes behind the table identifier: the reserved bits are set.
abbrev pub long_form_bytes : PsiSectionHeader → List ℕ
long_form_bytes h =
    (0xB0 + h.section_length / 256)
    ∷ (h.section_length % 256)
    ∷ (h.table_id_extension / 256)
    ∷ (h.table_id_extension % 256)
    ∷ (0xC0 + h.version_number * 2 + current_bit h.current_next_indicator)
    ∷ h.section_number
    ∷ h.last_section_number
    ∷ []

version_byte :
    (v : ℕ) (c : Bool)
    → v < 32
    → (low_bits (shr (0xC0 + v * 2 + current_bit c) 1) 5 ≡ v)
      × (bit (0xC0 + v * 2 + current_bit c) 0 ≡ c)
version_byte v true h = ground arith
version_byte v false h = ground arith

pub parse_section_header-long_form_bytes :
    (table : ℕ) (h : PsiSectionHeader) (rest : List ℕ) (n : ℕ)
    → h.section_syntax_indicator ≡ true
    → h.section_length < 4096
    → h.table_id_extension < 65536
    → h.version_number < 32
    → 8 ≤ n
    → parse_section_header (table ∷ (long_form_bytes h ++ rest)) n new_section_header
      ≡ some (8, record h { table_id = table })
unfolding parse_section_header parse_long_form
parse_section_header-long_form_bytes table h rest n long lb eb vb l =
    let few : ltb n 3 ≡ false = ground arith in
    let eight : ltb n 8 ≡ false = ground arith in
    let b : bit (0xB0 + h.section_length / 256) 7 ≡ true = ground arith in
    let s : section_length_of (0xB0 + h.section_length / 256) (h.section_length % 256)
        ≡ h.section_length =
      ground arith in
    let t : join (h.table_id_extension / 256) 8 (h.table_id_extension % 256)
        ≡ h.table_id_extension =
      ground arith in
    let (x, y) = version_byte h.version_number h.current_next_indicator vb in
    rw (few, b, s, eight, t, x, y)
      (ap (λ (f : Bool). some (8, record h { table_id = table; section_syntax_indicator = f }))
        (sym long))
