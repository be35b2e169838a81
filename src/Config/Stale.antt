-- ===== src/Config/Stale.antt =====
-- The cache behind a change of the file, or behind another Initialize, which does not empty it.
use dokevi_network.Prelude.{
  ℕ, ◌≡◌, refl, List, [], ◌∷◌, true, some, arith, Bool-cases, Option-cases, inl, inr,
}
use dokevi_network.Config.{same_string, Cache, Section, Reads, lookup, insert_into, get_str}

same_string_refl : (xs : List ℕ) → same_string xs xs ≡ true
unfolding same_string
same_string_refl [] = refl
same_string_refl (x ∷ xs) = ground (arith, same_string_refl xs)

lookup_first :
    {A : Type 0} (key : List ℕ) (v : A) (m : List (List ℕ × A)) → lookup key ((key, v) ∷ m) ≡ some v
unfolding lookup
lookup_first key v m = rw (same_string_refl key)

lookup-insert_into :
    (section : List ℕ) (entry : List ℕ × List ℕ) (c : Cache) (entries : Section)
    → lookup section c ≡ some entries
    → lookup section (insert_into section entry c) ≡ some (entry ∷ entries)
unfolding lookup insert_into
lookup-insert_into section entry [] entries e = cc
lookup-insert_into section entry ((s, es) ∷ c) entries e =
    elim (Bool-cases (same_string section s)) [
      | inl hit ↦ ground (arith, hit, e)
      | inr miss ↦ ground (arith, miss, lookup-insert_into section entry c entries, e)
    ]

-- The setting is in the cache.
abbrev Caches : List ℕ → List ℕ → List ℕ × Reads × Cache → Type 0
Caches section name (value, reads, c) =
    (entries : Section) × (lookup section c ≡ some entries) × (lookup name entries ≡ some value)

get_str-Caches :
    (read : List ℕ → List ℕ → List ℕ) (section name : List ℕ) (c : Cache)
    → Caches section name (get_str read section name c)
unfolding get_str
get_str-Caches read section name c = elim (Option-cases (lookup section c)) [
  | inl nothing ↦
      rw (nothing, get_str)
        (
          (name, read section name) ∷ [],
          lookup_first section ((name, read section name) ∷ []) c,
          lookup_first name (read section name) [],
        )
  | inr (entries, known) ↦ elim (Option-cases (lookup name entries)) [
    | inl nothing ↦
        rw (known, nothing, get_str)
          (
            (name, read section name) ∷ entries,
            lookup-insert_into section (name, read section name) c entries known,
            lookup_first name (read section name) entries,
          )
    | inr (value, there) ↦ rw (known, there, get_str) (entries, known, there)
  ]
]

-- What is in the cache is not read.
get_str_cached :
    (read : List ℕ → List ℕ → List ℕ) (section name value : List ℕ) (c : Cache) (entries : Section)
    → lookup section c ≡ some entries
    → lookup name entries ≡ some value
    → get_str read section name c ≡ (value, [], c)
unfolding get_str
get_str_cached read section name value c entries e e' = ground (arith, e, e')

-- A setting that has been asked for once keeps the value that it had then, whatever stands in the
-- file, or in another file, at a later call.
pub get_str_stale :
    (read read' : List ℕ → List ℕ → List ℕ) (section name : List ℕ) (c : Cache)
    → let (value, reads, c') = get_str read section name c in
      get_str read' section name c' ≡ (value, [], c')
get_str_stale read read' section name c =
    let (entries, e, e') = get_str-Caches read section name c in
    get_str_cached read' section name (get_str read section name c).0
      (get_str read section name c).2 entries e e'
