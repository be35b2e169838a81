-- ===== src/Bytes.antt =====
-- NetworkUtils.cpp and NetworkUtils.h: the 32-bit size at the front of a byte array, as a
-- little-endian machine (the library's only target, Windows) stores an `unsigned int`.
use dokevi_network.Prelude.{
  ℕ, ◌+◌, ◌*◌, ◌/◌, ◌%◌, ◌^◌, ◌≤◌, ◌<◌, ◌≡◌, refl, List, [], ◌∷◌, ◌++◌, arith, length, memcpy,
  Result, ok, err, overrun, ◌>>=◌, leb, if◌then◌else◌, le→leb, take, drop, sym, ap, ◌∙◌,
  length-take, take-append-drop, memcpy_lem, splice, take-splice_front, drop-splice_front,
  drop-splice,
}

-- `unsigned int` arithmetic wraps here.
abbrev pub word : ℕ
word = 2 ^ 32

-- sizeof(unsigned int)
abbrev pub sizeof_uint : ℕ
sizeof_uint = 4

-- The bytes of an `unsigned int` in memory.
abbrev pub bytes_of_uint : ℕ → List ℕ
bytes_of_uint n = (n % 256) ∷ (n / 256 % 256) ∷ (n / 65536 % 256) ∷ (n / 16777216 % 256) ∷ []

-- The `unsigned int` that the first four bytes hold; 0 stands for a read past the end.
unfoldable pub uint_of_bytes : List ℕ → ℕ
uint_of_bytes (a ∷ b ∷ c ∷ d ∷ rest) = a + 256 * b + 65536 * c + 16777216 * d
uint_of_bytes _ = 0

-- The array after the write at `pos`, and the position behind the size.
unfoldable pub set_size_on_byte_array_front : List ℕ → ℕ → ℕ → Result (List ℕ × ℕ)
set_size_on_byte_array_front array pos size = do
  array' ← memcpy array pos (bytes_of_uint size)
  ok (array', pos + sizeof_uint)

unfoldable pub get_size_in_byte_array : List ℕ → Result ℕ
get_size_in_byte_array array =
    if leb sizeof_uint (length array) then ok (uint_of_bytes array) else err overrun

pub get_size_lem :
    (array : List ℕ) → 4 ≤ length array → get_size_in_byte_array array ≡ ok (uint_of_bytes array)
unfolding get_size_in_byte_array
get_size_lem array h = rw (le→leb _ _ h)

-- The size that was written is read back, whatever follows it.
pub uint_of_bytes-bytes_of_uint :
    (n : ℕ) (rest : List ℕ) → n < word → uint_of_bytes (bytes_of_uint n ++ rest) ≡ n
unfolding uint_of_bytes
uint_of_bytes-bytes_of_uint n rest h = omega arith

pub uint_of_bytes-append :
    (xs ys : List ℕ) → 4 ≤ length xs → uint_of_bytes (xs ++ ys) ≡ uint_of_bytes xs
unfolding uint_of_bytes
uint_of_bytes-append (a ∷ b ∷ c ∷ d ∷ rest) ys h = refl
uint_of_bytes-append _ ys h = absurd (omega arith)

pub uint_of_bytes-take :
    (n : ℕ) (xs : List ℕ) → 4 ≤ n → 4 ≤ length xs → uint_of_bytes (take n xs) ≡ uint_of_bytes xs
uint_of_bytes-take n xs a b =
    sym (uint_of_bytes-append (take n xs) (drop n xs) (omega (arith, length-take n xs)))
    ∙ ap uint_of_bytes (take-append-drop n xs)

-- A size below 2 ^ 32 that is written where it fits into an array is read back from there, the position behind it
-- is given back, and the rest of the array stays.
pub set_size-get_size :
    (array : List ℕ) (pos : ℕ) (size : ℕ)
    → pos + 4 ≤ length array
    → size < word
    → (array' : List ℕ) × (set_size_on_byte_array_front array pos size ≡ ok (array', pos + 4))
      × (get_size_in_byte_array (drop pos array') ≡ ok size)
      × (take pos array' ≡ take pos array)
      × (drop (pos + 4) array' ≡ drop (pos + 4) array)
unfolding set_size_on_byte_array_front
set_size-get_size array pos size h small = (
  splice array pos (bytes_of_uint size),
  rw (memcpy_lem array pos (bytes_of_uint size) h),
  rw (drop-splice_front array pos (bytes_of_uint size) (omega arith)) (
      get_size_lem (bytes_of_uint size ++ drop (pos + 4) array) (omega arith)
      ∙ ap ok (uint_of_bytes-bytes_of_uint size (drop (pos + 4) array) small)),
  take-splice_front array pos (bytes_of_uint size) (omega arith),
  drop-splice array pos (bytes_of_uint size) h,
)
