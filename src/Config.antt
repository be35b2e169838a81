-- ===== src/Config.antt =====
-- ConfigManager.cpp: the settings of an ini file, and the cache in front of it. A string is its
-- bytes. GetPrivateProfileStringA is an argument, `read`: for a section and a name it gives what
-- stands in the file, or the empty string, cut to MAX_PATH; and so is std::atoi. The calls of `read`
-- are the second result. A call runs under the manager's write lock.
pub mod Cache
pub mod Stale
use dokevi_network.Prelude.{
  ℕ, List, [], ◌∷◌, Bool, true, false, ◌&&◌, Option, none, some, ◌==◌, if◌then◌else◌,
}

unfoldable pub same_string : List ℕ → List ℕ → Bool
same_string [] [] = true
same_string [] (y ∷ ys) = false
same_string (x ∷ xs) [] = false
same_string (x ∷ xs) (y ∷ ys) = x == y && same_string xs ys

abbrev pub Section : Type 0
Section = List (List ℕ × List ℕ)

abbrev pub Cache : Type 0
Cache = List (List ℕ × Section)

unfoldable pub lookup : {A : Type 0} → List ℕ → List (List ℕ × A) → Option A
lookup key [] = none
lookup key ((k, v) ∷ m) = if same_string key k then some v else lookup key m

-- cache_[section].insert(…), for a section that is there.
unfoldable pub insert_into : List ℕ → List ℕ × List ℕ → Cache → Cache
insert_into section entry [] = []
insert_into section entry ((s, es) ∷ c) =
    let rest = insert_into section entry c in
    if same_string section s then (s, entry ∷ es) ∷ c else (s, es) ∷ rest

-- What a call reads from the file.
abbrev pub Reads : Type 0
Reads = List (List ℕ × List ℕ)

module _ (read : List ℕ → List ℕ → List ℕ) where
  unfoldable pub get_str : List ℕ → List ℕ → Cache → List ℕ × Reads × Cache
  get_str section name c = elim (lookup section c) [
    | none ↦
        let value = read section name in
        (value, (section, name) ∷ [], (section, (name, value) ∷ []) ∷ c)
    | some entries ↦ elim (lookup name entries) [
      | none ↦
          let value = read section name in
          (value, (section, name) ∷ [], insert_into section (name, value) c)
      | some value ↦ (value, [], c)
    ]
  ]

  unfoldable pub get_int : (List ℕ → ℕ) → List ℕ → List ℕ → Cache → ℕ × Reads × Cache
  get_int atoi section name c =
      let (value, reads, c') = get_str section name c in (atoi value, reads, c')
