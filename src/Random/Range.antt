-- ===== src/Random/Range.antt =====
-- What GetInt can give.
use native.Mathlib.Nat.{mod-lt, mod-eq_of_lt, mod-le}
use dokevi_network.Prelude.{ℕ, ◌+◌, ◌%◌, ◌^◌, ◌≤◌, ◌<◌, ◌≡◌, ◌↔◌, refl, sym, ap, ◌∙◌, ok, arith}
use dokevi_network.Bytes.{word}
use dokevi_network.Random.{rand_bound, width, get_int}

get_int_lem :
    (rand min d : ℕ)
    → min < word
    → d + 1 < 2 ^ 31
    → get_int rand min ((min + d) % word) ≡ ok ((min + rand % (d + 1)) % word)
unfolding get_int
get_int_lem rand min d a b =
    let e : width min ((min + d) % word) ≡ d + 1 = omega arith in
    let small : 2 ^ 31 ≡ 2147483648 = refl in rw e (ground (arith, small))

-- For a range of `d + 1` numbers from `min` on (across the wrap of the pattern, that is, also from a
-- negative number to a positive one), fewer than 2 ^ 31: GetInt gives a number `k` behind `min`
-- exactly if `k` is in the range and std::rand can give it.
pub get_int_iff :
    (min d k : ℕ)
    → min < word
    → d + 1 < 2 ^ 31
    → k < word
    → ((rand : ℕ) × (rand < rand_bound)
        × (get_int rand min ((min + d) % word) ≡ ok ((min + k) % word)))
      ↔ ((k ≤ d) × (k < rand_bound))
get_int_iff min d k a b c = (
  λ (rand, small, e).
      let given : ok ((min + rand % (d + 1)) % word) ≡ ok ((min + k) % word) =
        sym (get_int_lem rand min d a b) ∙ e in
      let same : (min + rand % (d + 1)) % word ≡ (min + k) % word = cc in
      let r = rand % (d + 1) in
      let below : r < d + 1 = mod-lt rand {m = d + 1} (omega arith) in
      let le : r ≤ rand = mod-le rand (d + 1) in
      (omega (arith, same, below), omega (arith, same, below, le)),
  λ (within, small). (
    k,
    small,
    get_int_lem k min d a b ∙ ap (λ m. ok ((min + m) % word)) (mod-eq_of_lt (omega arith)),
  ),
)
