-- ===== src/Psi/Assembly.antt =====
-- `PSIAccumulator` stays inside the payloads that it is given, and what its reports mean.
use minimal_mpegts_std_impl.Prelude.{
  ℕ, ◌+◌, ◌-◌, ◌≤◌, ◌≡◌, refl, Bool, true, List, ◌++◌, arith, Returns, Returns->>=, Returns-if,
  read, read-byte, IsBytes, length, length-drop, drop, read_span, read_span-take, read_span_returns,
  take, ltb, All-append, All-take, All-drop,
}
use minimal_mpegts_std_impl.Psi.Accumulator.{
  PsiAccumulator, new_accumulator, update_expected, check_complete, append_data, start_section,
  add_data, get_section,
}

update_expected_returns :
    (a : PsiAccumulator) → Returns (update_expected a) (λ a'. (a'.buffer ≡ a.buffer))
unfolding update_expected
update_expected_returns a = ground (arith, read-byte a.buffer 1, read-byte a.buffer 2)

-- After `addData`: only bytes in the buffer, and on a report of a complete section that section.
pub record Added (r : Bool × PsiAccumulator) : Type 0 where
  pub bytes : IsBytes r.1.buffer
  pub ready : r.0 ≡ true → r.1.complete ≡ true
  pub enough : r.0 ≡ true → r.1.expected_length ≤ length r.1.buffer

buffer-check_complete : (a : PsiAccumulator) → (check_complete a).1.buffer ≡ a.buffer
buffer-check_complete a = ground arith

check_complete-Added : (a : PsiAccumulator) → IsBytes a.buffer → Added (check_complete a)
check_complete-Added a bytes = record {
  bytes = rw (buffer-check_complete a) bytes;
  ready = ground arith;
  enough = ground arith;
}

append_data_returns :
    (a : PsiAccumulator) (p : List ℕ) (n : ℕ)
    → n ≤ length p
    → IsBytes p
    → IsBytes a.buffer
    → Returns (append_data a p n) Added
unfolding append_data
append_data_returns a p n h bp ba =
    Returns-if _ a.synced _ _
      (λ _. Returns->>= _ _ (read_span p n) _ (read_span_returns p n h) λ bytes e.
        Returns->>= _ Added (update_expected (record a { buffer = a.buffer ++ bytes })) _
          (update_expected_returns (record a { buffer = a.buffer ++ bytes }))
          λ a' e'.
            check_complete-Added a'
              (rw (e', e) (All-append _ a.buffer (take n p) ba (All-take _ n p bp))))
      (λ _. record { bytes = ba; ready = λ x. cc; enough = λ x. cc })

-- `addData` reads nothing behind the `n` bytes that it is given and returns. Its buffer holds bytes
-- again, and when it reports a section, that is marked complete and the buffer has at least as many
-- bytes as are expected.
pub add_data_returns :
    (a : PsiAccumulator) (p : List ℕ) (n : ℕ) (start : Bool)
    → n ≤ length p
    → IsBytes p
    → IsBytes a.buffer
    → Returns (add_data a p n start) Added
unfolding add_data start_section
add_data_returns a p n start h bp ba =
    Returns-if _ start _ _
      (λ _.
        Returns-if _ (ltb 0 n) _ _
          (λ pos.
            Returns->>= (λ b. Unit {0}) Added (read p 0) _ (rw (read-byte p 0 (ground arith)) tt)
              λ pointer _.
                Returns-if Added (ltb pointer (n - 1)) _ _
                  (λ inside.
                    append_data_returns _ (drop (1 + pointer) p) _
                      (ground (arith, length-drop (1 + pointer) p)) (All-drop _ _ p bp) tt)
                  (λ _. record { bytes = tt; ready = λ x. cc; enough = λ x. cc }))
          (λ _. append_data_returns _ p n h bp tt))
      (λ _. append_data_returns a p n h bp ba)

pub get_section_returns :
    (a : PsiAccumulator) (section : List ℕ)
    → Added (true, a)
    → Returns (get_section a section) (λ r.
      (r.1 ≡ take a.expected_length a.buffer)
      × (r.0 ≡ length r.1)
      × IsBytes r.1
      × (r.2 ≡ new_accumulator))
unfolding get_section
get_section_returns a section ok =
    let done : a.complete ≡ true = ok.ready refl in
    rw (done, read_span-take a.buffer a.expected_length (ok.enough refl), get_section)
      (refl, refl, All-take _ a.expected_length a.buffer ok.bytes, refl)
