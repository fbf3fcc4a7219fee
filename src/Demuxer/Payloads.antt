-- ===== src/Demuxer/Payloads.antt =====
-- What a client reads back: `getAllPayloads` on a stored iteration.
use minimal_mpegts_std_impl.Prelude.{
  ℕ, zero, suc, ◌+◌, ◌-◌, ◌≤◌, ◌≡◌, refl, sym, ap, ◌∙◌, some, List, [], ◌∷◌, ◌++◌, arith, map,
  length, take, drop, take-length,
}
use minimal_mpegts_std_impl.Prelude.Double.{Double}
use minimal_mpegts_std_impl.Types.{PayloadSegment, PayloadBuffer, IterationData}
use minimal_mpegts_std_impl.Storage.{get_stream}
use minimal_mpegts_std_impl.Demuxer.State.{Demuxer}
use minimal_mpegts_std_impl.Demuxer.Queries.{buffer_of, iteration_in, get_all_payloads}
use minimal_mpegts_std_impl.Demuxer.Tiles.{Covers, bytes_of}
use minimal_mpegts_std_impl.Demuxer.Stored.{IsStored, Pointed, Covers-le}

-- The client copies out each buffer, as many bytes as its length says, in order.
abbrev pub copied : List PayloadBuffer → List ℕ
copied [] = []
copied (b ∷ r) = bytes_of b.bytes b.length ++ copied r

take-drop-add : (m n : ℕ) (xs : List ℕ) → take m xs ++ take n (drop m xs) ≡ take (m + n) xs
take-drop-add zero n xs = let e : 0 + n ≡ n = omega arith in rw e refl
take-drop-add (suc m) zero [] = let e : suc m + 0 ≡ suc m = omega arith in rw e refl
take-drop-add (suc m) (suc n) [] =
    let e : suc m + suc n ≡ suc (m + suc n) = omega arith in rw e refl
take-drop-add (suc m) n (x ∷ xs) =
    let e : suc m + n ≡ suc (m + n) = omega arith in rw e (ap (λ l. x ∷ l) (take-drop-add m n xs))

drop-drop : (m n : ℕ) (xs : List ℕ) → drop n (drop m xs) ≡ drop (m + n) xs
drop-drop zero n xs = let e : 0 + n ≡ n = omega arith in rw e refl
drop-drop (suc m) zero [] = let e : suc m + 0 ≡ suc m = omega arith in rw e refl
drop-drop (suc m) (suc n) [] = let e : suc m + suc n ≡ suc (m + suc n) = omega arith in rw e refl
drop-drop (suc m) n (x ∷ xs) =
    let e : suc m + n ≡ suc (m + n) = omega arith in rw e (drop-drop m n xs)

copied_segments :
    (it : IterationData) (start : ℕ) (xs : List PayloadSegment) (stop : ℕ)
    → Covers start xs stop
    → Pointed xs
    → copied (map (buffer_of it) xs) ≡ take (stop - start) (drop start it.payload_data)
copied_segments it start [] stop c p = let e : stop - start ≡ 0 = omega arith in rw e refl
copied_segments it start (s ∷ xs) stop c p =
    let l : start + s.length ≤ stop = Covers-le (start + s.length) xs stop c.2 in
    let n : stop - start ≡ s.length + (stop - (start + s.length)) = omega arith in
    let h = copied_segments it (start + s.length) xs stop c.2 p.1 in
    rw (p.0, c.0, h, n)
      (ap (λ l. take s.length (drop start it.payload_data) ++ take (stop - (start + s.length)) l)
          (sym (drop-drop start s.length it.payload_data))
        ∙ take-drop-add s.length (stop - (start + s.length)) (drop start it.payload_data))

module _ (F : Double) where
  -- Where an iteration is found whose segments cover its data and point at their own bytes: a client
  -- that copies the buffers of `getAllPayloads` one behind the other, each as long as its length
  -- says, has exactly the iteration's data, in order, each byte once.
  pub get_all_payloads-copied :
      (d : Demuxer F) (pid id : ℕ) (it : IterationData)
      → iteration_in (get_stream d.storage pid) id ≡ some it
      → IsStored it
      → copied (get_all_payloads F d pid id) ≡ it.payload_data
  unfolding get_all_payloads
  get_all_payloads-copied d pid id it e h =
      let z : length it.payload_data - 0 ≡ length it.payload_data = omega arith in
      let c = copied_segments it 0 it.payloads (length it.payload_data) h.0 h.1 in
      rw e ((rw z at c) ∙ take-length it.payload_data)
