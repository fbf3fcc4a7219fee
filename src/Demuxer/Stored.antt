-- ===== src/Demuxer/Stored.antt =====
-- Finished iterations in the storage: what `addIteration` keeps of them.
use minimal_mpegts_std_impl.Prelude.{
  ℕ, ◌+◌, ◌≤◌, ◌<◌, ◌≡◌, refl, sym, ap, ◌∙◌, Option, none, some, List, [], ◌∷◌, arith, map, length,
  All, All-append,
}
use minimal_mpegts_std_impl.Prelude.Assoc.{lookup, AllValues, AllValues-lookup, AllValues-insert}
use minimal_mpegts_std_impl.Types.{PayloadSegment, IterationData}
use minimal_mpegts_std_impl.Storage.{
  Stream, Storage, fix_pointer, fix_pointers, add_iteration, get_or_create_stream, new_stream,
}
use minimal_mpegts_std_impl.Demuxer.Collect.{store_iteration}
use minimal_mpegts_std_impl.Demuxer.Tiles.{Covers, Tiled}

-- Every segment points at its place in the iteration's own data.
abbrev pub Pointed : List PayloadSegment → Type 0
Pointed = All (λ s. s.pointer ≡ some s.offset_in_stream)

abbrev pub IsStored : IterationData → Type 0
IsStored it = Tiled it × Pointed it.payloads

fix_pointer-offset :
    (size : ℕ) (s : PayloadSegment) → (fix_pointer size s).offset_in_stream ≡ s.offset_in_stream
fix_pointer-offset size s = ground arith

fix_pointer-length : (size : ℕ) (s : PayloadSegment) → (fix_pointer size s).length ≡ s.length
fix_pointer-length size s = ground arith

fix_pointer-pointer :
    (size : ℕ) (s : PayloadSegment)
    → s.offset_in_stream < size
    → (fix_pointer size s).pointer ≡ some s.offset_in_stream
fix_pointer-pointer size s h = ground arith

pub Covers-le :
    (start : ℕ) (xs : List PayloadSegment) (stop : ℕ) → Covers start xs stop → start ≤ stop
Covers-le start [] stop h = omega arith
Covers-le start (s ∷ xs) stop h = omega (arith, Covers-le (start + s.length) xs stop h.2)

fix_pointers-Covers :
    (size start : ℕ) (xs : List PayloadSegment) (stop : ℕ)
    → Covers start xs stop
    → Covers start (map (fix_pointer size) xs) stop
fix_pointers-Covers size start [] stop h = h
fix_pointers-Covers size start (s ∷ xs) stop h = (
  fix_pointer-offset size s ∙ h.0,
  rw (fix_pointer-length size s) h.1,
  rw (fix_pointer-length size s) (fix_pointers-Covers size (start + s.length) xs stop h.2),
)

fix_pointers-Pointed :
    (size start : ℕ) (xs : List PayloadSegment) (stop : ℕ)
    → Covers start xs stop
    → stop ≤ size
    → Pointed (map (fix_pointer size) xs)
fix_pointers-Pointed size start [] stop h l = tt
fix_pointers-Pointed size start (s ∷ xs) stop h l = (
  fix_pointer-pointer size s (omega (arith, Covers-le (start + s.length) xs stop h.2))
      ∙ sym (ap some (fix_pointer-offset size s)),
  fix_pointers-Pointed size (start + s.length) xs stop h.2 l,
)

-- The pointers that `addIteration` writes: in an iteration whose segments cover its data, every
-- segment comes to point at its own bytes, and the segments cover the data as before.
pub fix_pointers-IsStored : (it : IterationData) → Tiled it → IsStored (fix_pointers it)
fix_pointers-IsStored it h = (
  fix_pointers-Covers (length it.payload_data) 0 it.payloads _ h,
  fix_pointers-Pointed (length it.payload_data) 0 it.payloads _ h (omega arith),
)

abbrev pub StreamOk : Stream → Type 0
StreamOk s = All (λ e. IsStored e.1) s.iterations

abbrev pub StorageOk : Storage → Type 0
StorageOk st = AllValues StreamOk st.streams

add_iteration-StreamOk :
    (s : Stream) (id : ℕ) (it : IterationData)
    → StreamOk s
    → Tiled it
    → StreamOk (add_iteration s id it)
unfolding add_iteration
add_iteration-StreamOk s id it h t = All-append _ s.iterations _ h (fix_pointers-IsStored it t, tt)

store_cases :
    (st : Storage) (pid id : ℕ) (it : IterationData) (o : Option Stream)
    → lookup pid st.streams ≡ o
    → StorageOk st
    → Tiled it
    → StorageOk (store_iteration st pid id it)
unfolding store_iteration get_or_create_stream
store_cases st pid id it none e h t =
    rw (e, store_iteration, get_or_create_stream)
      (AllValues-insert StreamOk pid _ _ (add_iteration-StreamOk (new_stream pid) id it tt t)
        (AllValues-insert StreamOk pid _ _ tt h))
store_cases st pid id it (some s) e h t =
    rw (e, store_iteration, get_or_create_stream)
      (AllValues-insert StreamOk pid _ _
        (add_iteration-StreamOk s id it (AllValues-lookup StreamOk pid st.streams h e) t) h)

pub store_iteration-StorageOk :
    (st : Storage) (pid id : ℕ) (it : IterationData)
    → StorageOk st
    → Tiled it
    → StorageOk (store_iteration st pid id it)
store_iteration-StorageOk st pid id it h t = store_cases st pid id it _ refl h t
