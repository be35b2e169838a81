-- ===== src/Stacks/FileName.antt =====
-- MakeFileNameUsingAddress of StackTracer.cpp. A string is its bytes, without the closing zero.
use dokevi_network.Prelude.{
  ℕ, ◌<◌, ◌≡◌, ◌≢◌, refl, List, [], ◌∷◌, ◌++◌, Option, none, some, Result, ok, err, overrun,
  null_deref, length, ltb, ◌==◌, if◌then◌else◌, All, ==_ne, lt→ltb,
}

-- MAX_PATH of the Windows headers, and the backslash.
abbrev pub max_path : ℕ
max_path = 260

abbrev pub backslash : ℕ
backslash = 92

-- What stands behind the place that strrchr finds.
unfoldable pub behind_last : List ℕ → Option (List ℕ)
behind_last [] = none
behind_last (c ∷ cs) = elim (behind_last cs) [
  | some rest ↦ some rest
  | none ↦ if c == backslash then some cs else none
]

-- strcpy has no test; where strrchr finds nothing its null pointer is followed.
unfoldable pub make_file_name_using_address : List ℕ → Result (List ℕ)
make_file_name_using_address addr =
    if ltb (length addr) max_path
    then elim (behind_last addr) [ none ↦ err null_deref | some name ↦ ok name ]
    else err overrun

behind_last-none : (name : List ℕ) → All (λ c. c ≢ backslash) name → behind_last name ≡ none
unfolding behind_last
behind_last-none [] h = refl
behind_last-none (c ∷ cs) h = rw (behind_last-none cs h.1, ==_ne c backslash h.0)

behind_last-path :
    (dir name : List ℕ)
    → All (λ c. c ≢ backslash) name
    → behind_last (dir ++ (backslash ∷ name)) ≡ some name
unfolding behind_last
behind_last-path [] name h = rw (behind_last-none name h)
behind_last-path (c ∷ dir) name h = rw (behind_last-path dir name h)

-- For a path that is shorter than MAX_PATH, MakeFileNameUsingAddress gives the part behind the last
-- backslash; without a backslash it follows a null pointer.
pub make_file_name-path :
    (dir name : List ℕ)
    → All (λ c. c ≢ backslash) name
    → length (dir ++ (backslash ∷ name)) < max_path
    → make_file_name_using_address (dir ++ (backslash ∷ name)) ≡ ok name
unfolding make_file_name_using_address
make_file_name-path dir name h short =
    rw (lt→ltb (length (dir ++ (backslash ∷ name))) max_path short, behind_last-path dir name h)

pub make_file_name-bare :
    (name : List ℕ)
    → All (λ c. c ≢ backslash) name
    → length name < max_path
    → make_file_name_using_address name ≡ err null_deref
unfolding make_file_name_using_address
make_file_name-bare name h short = rw (lt→ltb (length name) max_path short, behind_last-none name h)
