-- ===== src/Random.antt =====
-- RandGenerator.h: GetInt. The answer of std::rand is an argument, and an `int` is its 32-bit pattern.
-- GetFloat, which computes with `float`, is not modelled.
pub mod Range
use dokevi_network.Prelude.{ℕ, ◌+◌, ◌-◌, ◌%◌, ◌^◌, Result, ok, err, crash, ◌==◌, ltb, if◌then◌else◌}
use dokevi_network.Bytes.{word}

-- RAND_MAX + 1 of the target's library.
abbrev pub rand_bound : ℕ
rand_bound = 32768

-- max - min + 1
abbrev pub width : ℕ → ℕ → ℕ
width min max = (max + word - min + 1) % word

-- The remainder of a number that is not negative by one that may be: the sign of the divisor does not
-- count.
unfoldable pub get_int : ℕ → ℕ → ℕ → Result ℕ
get_int rand min max =
    let w = width min max in
    if w == 0
    then err crash
    else ok ((min + (if ltb w (2 ^ 31) then rand % w else rand % (word - w))) % word)
