-- ===== src/Framing/Stuck.antt =====
-- Streams in which, behind some whole frames, a frame announces the size 0.
use dokevi_network.Prelude.{
  ℕ, zero, suc, ◌≤◌, ◌<◌, ◌≡◌, ◌⊎◌, inl, inr, List, [], arith, length, drop, length-drop, dec_le,
}
use dokevi_network.Bytes.{uint_of_bytes}
use dokevi_network.Framing.{Frames, stop, more}

pub data Stuck : List ℕ → Type 0 where
  zero_size : {s : List ℕ} → 4 ≤ length s → uint_of_bytes s ≡ 0 → Stuck s
  behind :
      {s : List ℕ}
      → 4 ≤ length s
      → 1 ≤ uint_of_bytes s
      → uint_of_bytes s ≤ length s
      → Stuck (drop (uint_of_bytes s) s)
      → Stuck s

abbrev pub Cuttable : List ℕ → Type 0
Cuttable s = (fs : List (List ℕ)) × (rest : List ℕ) × Frames s fs rest

behind-either :
    (s : List ℕ)
    → 4 ≤ length s
    → 1 ≤ uint_of_bytes s
    → uint_of_bytes s ≤ length s
    → Cuttable (drop (uint_of_bytes s) s) ⊎ Stuck (drop (uint_of_bytes s) s)
    → Cuttable s ⊎ Stuck s
behind-either s a b d (inl (fs, rest, h)) = inl (_, rest, more a b d h)
behind-either s a b d (inr t) = inr (behind a b d t)

cut_below : (n : ℕ) (s : List ℕ) → length s < n → Cuttable s ⊎ Stuck s
cut_below zero s h = absurd (omega arith)
cut_below (suc n) s h = elim (dec_le 4 (length s)) [
  | no short ↦ inl ([], s, stop (inl (omega arith)))
  | yes a ↦ elim (dec_le (uint_of_bytes s) (length s)) [
    | no short ↦ inl ([], s, stop (inr (omega arith)))
    | yes d ↦ elim (dec_le 1 (uint_of_bytes s)) [
      | no z ↦ inr (zero_size a (omega arith))
      | yes b ↦
          behind-either s a b d (
            cut_below n (drop (uint_of_bytes s) s) (omega (arith, length-drop (uint_of_bytes s) s)))
    ]
  ]
]

-- Every stream is cut into frames, or meets a frame of size 0.
pub cut : (s : List ℕ) → Cuttable s ⊎ Stuck s
cut s = cut_below (suc (length s)) s (omega arith)
