-- ===== src/Storage/Lookup.antt =====
-- `StreamIterations`: what is found after an iteration is added or removed.
use minimal_mpegts_std_impl.Prelude.{
  ℕ, ◌≡◌, ◌≢◌, ◌==◌, refl, none, some, List, [], ◌∷◌, ◌++◌, arith, if◌then◌else◌,
}
use minimal_mpegts_std_impl.Types.{IterationData}
use minimal_mpegts_std_impl.Storage.{
  Stream, fix_pointers, add_iteration, find_iteration, get_iteration, erase_iteration,
  remove_iteration,
}

find_iteration-snoc :
    (j id : ℕ) (d : IterationData) (m : List (ℕ × IterationData))
    → find_iteration j m ≡ none
    → find_iteration j (m ++ (id, d) ∷ []) ≡ (if id == j then some d else none)
unfolding find_iteration
find_iteration-snoc j id d [] h = refl
find_iteration-snoc j id d ((i, x) ∷ m) h = ground (arith, find_iteration-snoc j id d m)

find_iteration-kept :
    (j id : ℕ) (d x : IterationData) (m : List (ℕ × IterationData))
    → find_iteration j m ≡ some x
    → find_iteration j (m ++ (id, d) ∷ []) ≡ some x
unfolding find_iteration
find_iteration-kept j id d x [] h = absurd (ground arith)
find_iteration-kept j id d x ((i, y) ∷ m) h = ground (arith, find_iteration-kept j id d x m)

find_iteration-other :
    (j id : ℕ) (d : IterationData) (m : List (ℕ × IterationData))
    → j ≢ id
    → find_iteration j (m ++ (id, d) ∷ []) ≡ find_iteration j m
unfolding find_iteration
find_iteration-other j id d [] n = ground arith
find_iteration-other j id d ((i, x) ∷ m) n = ground (arith, find_iteration-other j id d m n)

erase_iteration-snoc :
    (id : ℕ) (d : IterationData) (m : List (ℕ × IterationData))
    → find_iteration id m ≡ none
    → erase_iteration id (m ++ (id, d) ∷ []) ≡ m
unfolding find_iteration erase_iteration
erase_iteration-snoc id d [] h = ground arith
erase_iteration-snoc id d ((i, x) ∷ m) h = ground (arith, erase_iteration-snoc id d m)

find_iteration-erase_iteration :
    (j id : ℕ) (m : List (ℕ × IterationData))
    → j ≢ id
    → find_iteration j (erase_iteration id m) ≡ find_iteration j m
unfolding find_iteration erase_iteration
find_iteration-erase_iteration j id [] n = refl
find_iteration-erase_iteration j id ((i, x) ∷ m) n =
    ground (arith, find_iteration-erase_iteration j id m n)

-- An iteration added under an identifier that the stream does not hold is found under it, with its
-- pointers set, and its removal gives the iterations back that were there.
pub remove_iteration-add_iteration :
    (s : Stream) (id : ℕ) (d : IterationData)
    → get_iteration s id ≡ none
    → (get_iteration (add_iteration s id d) id ≡ some (fix_pointers d))
      × ((remove_iteration (add_iteration s id d) id).iterations ≡ s.iterations)
unfolding get_iteration add_iteration remove_iteration
remove_iteration-add_iteration s id d h = (
  ground (arith, find_iteration-snoc id id (fix_pointers d) s.iterations h),
  erase_iteration-snoc id (fix_pointers d) s.iterations h,
)

-- Adding or removing an iteration under one identifier changes what is found under no other, and
-- an iteration added under an identifier that is taken does not replace the one found under it.
pub get_iteration-other :
    (s : Stream) (id : ℕ) (d : IterationData)
    → ((j : ℕ)
        → j ≢ id
        → (get_iteration (add_iteration s id d) j ≡ get_iteration s j)
          × (get_iteration (remove_iteration s id) j ≡ get_iteration s j))
      × ((x : IterationData)
          → get_iteration s id ≡ some x
          → get_iteration (add_iteration s id d) id ≡ some x)
unfolding get_iteration add_iteration remove_iteration
get_iteration-other s id d = (
  (λ j n. (
    find_iteration-other j id (fix_pointers d) s.iterations n,
    find_iteration-erase_iteration j id s.iterations n,
  )),
  λ x h. find_iteration-kept id id (fix_pointers d) x s.iterations h,
)
