-- ===== src/Prelude/Arrays.antt =====
-- memcpy and memmove into an array, with the access outside it as a fault.
use Prim.Native.Nat.{ℕ, ◌+◌, ◌≤◌, ◌<◌}
use mathlib.Core.Path.{◌≡◌, ap, ◌∙◌}
use mathlib.Core.List.{List, ◌++◌, append_assoc}
use native.Mathlib.Omega.{arith}
use dokevi_network.Prelude.Tests.{leb, if◌then◌else◌, le→leb, lt→leb_false}
use dokevi_network.Prelude.Lists.{
  length, take, drop, length-append, length-take, length-drop, take-append_seam, take-drop,
  drop-append_seam,
}
use dokevi_network.Prelude.Results.{Result, ok, err, overrun}

module _ {ℓ} {A : Type ℓ} where
  -- The array with `src` in place from `off` on.
  pub splice : List A → ℕ → List A → List A
  splice buf off src = take off buf ++ (src ++ drop (off + length src) buf)

  -- memcpy(buf + off, src, n), where `src` is the list of the n elements.
  unfoldable pub memcpy : List A → ℕ → List A → Result (List A)
  memcpy buf off src =
      if leb (off + length src) (length buf) then ok (splice buf off src) else err overrun

  -- memmove(buf, buf + k, n)
  unfoldable pub memmove : List A → ℕ → ℕ → Result (List A)
  memmove buf k n =
      if leb (k + n) (length buf) then memcpy buf 0 (take n (drop k buf)) else err overrun

  -- The `n` elements from `off` on, as memcpy reads its source.
  unfoldable pub read_at : List A → ℕ → ℕ → Result (List A)
  read_at buf off n = if leb (off + n) (length buf) then ok (take n (drop off buf)) else err overrun

  pub length-splice :
      (buf : List A) (off : ℕ) (src : List A)
      → off + length src ≤ length buf
      → length (splice buf off src) ≡ length buf
  unfolding splice
  length-splice buf off src h = omega (
    arith,
    length-append (take off buf) (src ++ drop (off + length src) buf),
    length-append src (drop (off + length src) buf),
    length-take off buf,
    length-drop (off + length src) buf,
  )

  -- Up to its end the written part stands behind what was there before it.
  pub take-splice :
      (buf : List A) (off : ℕ) (src : List A)
      → off + length src ≤ length buf
      → take (off + length src) (splice buf off src) ≡ take off buf ++ src
  unfolding splice
  take-splice buf off src h = rw (← append_assoc (take off buf) src (drop (off + length src) buf)) (
      take-append_seam (off + length src) (take off buf ++ src) _
        (omega (arith, length-append (take off buf) src, length-take off buf)))

  -- In front of the written part stands what was there, behind the front the part itself, and behind
  -- the part what was there.
  pub take-splice_front :
      (buf : List A) (off : ℕ) (src : List A)
      → off ≤ length buf
      → take off (splice buf off src) ≡ take off buf
  unfolding splice
  take-splice_front buf off src h =
      take-append_seam off (take off buf) _ (omega (arith, length-take off buf))

  pub drop-splice_front :
      (buf : List A) (off : ℕ) (src : List A)
      → off ≤ length buf
      → drop off (splice buf off src) ≡ src ++ drop (off + length src) buf
  unfolding splice
  drop-splice_front buf off src h =
      drop-append_seam off (take off buf) _ (omega (arith, length-take off buf))

  pub drop-splice :
      (buf : List A) (off : ℕ) (src : List A)
      → off + length src ≤ length buf
      → drop (off + length src) (splice buf off src) ≡ drop (off + length src) buf
  unfolding splice
  drop-splice buf off src h = rw (← append_assoc (take off buf) src (drop (off + length src) buf)) (
      drop-append_seam (off + length src) (take off buf ++ src) _
        (omega (arith, length-append (take off buf) src, length-take off buf)))

  pub memcpy_lem :
      (buf : List A) (off : ℕ) (src : List A)
      → off + length src ≤ length buf
      → memcpy buf off src ≡ ok (splice buf off src)
  unfolding memcpy
  memcpy_lem buf off src h = rw (le→leb _ _ h)

  pub memcpy_overrun :
      (buf : List A) (off : ℕ) (src : List A)
      → length buf < off + length src
      → memcpy buf off src ≡ err overrun
  unfolding memcpy
  memcpy_overrun buf off src h = rw (lt→leb_false _ _ h)

  -- A move to the front within the array succeeds, and the moved part is what stood there.
  pub memmove_lem :
      (buf : List A) (k n : ℕ)
      → k + n ≤ length buf
      → (buf' : List A) × (memmove buf k n ≡ ok buf')
        × (length buf' ≡ length buf)
        × (take n buf' ≡ drop k (take (k + n) buf))
  unfolding memmove
  memmove_lem buf k n h = (
    splice buf 0 part,
    rw (le→leb _ _ h) (memcpy_lem buf 0 part (omega (arith, sized))),
    length-splice buf 0 part (omega (arith, sized)),
    ap (λ m. take m (splice buf 0 part)) (omega (arith, sized))
        ∙ take-splice buf 0 part (omega (arith, sized))
        ∙ take-drop n k buf,
  )
    where
      part : List A
      part = take n (drop k buf)

      sized : length part ≡ n
      sized = omega (arith, length-take n (drop k buf), length-drop k buf)

  pub read_at_lem : (buf : List A) (n : ℕ) → n ≤ length buf → read_at buf 0 n ≡ ok (take n buf)
  unfolding read_at
  read_at_lem buf n h = rw (le→leb (0 + n) (length buf) (omega arith))
