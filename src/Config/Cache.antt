-- ===== src/Config/Cache.antt =====
-- The cache agrees with the file.
use dokevi_network.Prelude.{
  ℕ, ◌≡◌, refl, sym, ap, ap₂, List, [], ◌∷◌, map, true, some, All, arith, Bool-cases, Option-cases,
  inl, inr, subst,
}
use dokevi_network.Config.{same_string, Cache, lookup, insert_into, Reads, get_str}

same_string→eq : (xs ys : List ℕ) → same_string xs ys ≡ true → xs ≡ ys
unfolding same_string
same_string→eq [] [] e = refl
same_string→eq [] (y ∷ ys) e = cc
same_string→eq (x ∷ xs) [] e = cc
same_string→eq (x ∷ xs) (y ∷ ys) e = ground (arith, same_string→eq xs ys)

module _ (read : List ℕ → List ℕ → List ℕ) where
  -- An entry of a section holds what the file does.
  abbrev pub IsRight : List ℕ → List ℕ × List ℕ → Type 0
  IsRight section (name, value) = value ≡ read section name

  abbrev pub Agrees : Cache → Type 0
  Agrees = All (λ s. All (IsRight s.0) s.1)

  lookup-All :
      {A : Type 0} (P : List ℕ → A → Type 0) (key : List ℕ) (m : List (List ℕ × A)) {v : A}
      → All (λ e. P e.0 e.1) m
      → lookup key m ≡ some v
      → P key v
  unfolding lookup
  lookup-All P key [] h e = cc
  lookup-All P key ((k, u) ∷ m) {v} h e = elim (Bool-cases (same_string key k)) [
    | inl hit ↦
        subst (λ k'. P k' v) (sym (same_string→eq key k hit))
          (subst (P k) (ground (arith, hit, e)) h.0)
    | inr miss ↦ lookup-All P key m h.1 (ground (arith, miss, e))
  ]

  insert_into-Agrees :
      (section name : List ℕ) (c : Cache)
      → Agrees c
      → Agrees (insert_into section (name, read section name) c)
  unfolding insert_into
  insert_into-Agrees section name [] h = tt
  insert_into-Agrees section name ((s, es) ∷ c) h = elim (Bool-cases (same_string section s)) [
    | inl hit ↦ rw hit ((ap (λ t. read t name) (same_string→eq section s hit), h.0), h.1)
    | inr miss ↦ rw miss (h.0, insert_into-Agrees section name c h.1)
  ]

  -- What a call gives: the file's value, with a cache that agrees still.
  abbrev Gives : List ℕ → List ℕ → List ℕ × Reads × Cache → Type 0
  Gives section name (value, reads, c) = (value ≡ read section name) × Agrees c

  get_str_lem :
      (section name : List ℕ) (c : Cache)
      → Agrees c
      → Gives section name (get_str read section name c)
  unfolding get_str
  get_str_lem section name c h = elim (Option-cases (lookup section c)) [
    | inl nothing ↦ rw (nothing, get_str) (refl, ((refl, tt), h))
    | inr (entries, known) ↦ elim (Option-cases (lookup name entries)) [
      | inl nothing ↦ rw (known, nothing, get_str) (refl, insert_into-Agrees section name c h)
      | inr (value, there) ↦
          rw (known, there, get_str)
            (
              lookup-All (λ n v. v ≡ read section n) name entries
                  (lookup-All (λ t es. All (IsRight t) es) section c h known) there,
              h,
            )
    ]
  ]

  -- One GetStr after another.
  unfoldable pub get_all : List (List ℕ × List ℕ) → Cache → List (List ℕ) × Cache
  get_all [] c = ([], c)
  get_all ((section, name) ∷ ks) c =
      let (value, reads, c') = get_str read section name c in
      let (values, c'') = get_all ks c' in (value ∷ values, c'')

  -- As long as the file stays as it is, every sequence of calls of GetStr gives what stands in the
  -- file, whatever of it is in the cache.
  pub get_all-read :
      (ks : List (List ℕ × List ℕ)) (c : Cache)
      → Agrees c
      → (get_all ks c).0 ≡ map (λ k. read k.0 k.1) ks
  unfolding get_all
  get_all-read [] c h = refl
  get_all-read ((section, name) ∷ ks) c h =
      let now = get_str_lem section name c h in
      ap₂ ◌∷◌ now.0 (get_all-read ks (get_str read section name c).2 now.1)
