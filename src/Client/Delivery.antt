-- ===== src/Client/Delivery.antt =====
-- DeserializePacket against the wire format of Framing: an instance of Framing.Reassembly.
use dokevi_network.Prelude.{
  ℕ, zero, suc, ◌-◌, ◌≤◌, ◌<◌, ◌≡◌, refl, sym, ap, ap₂, ◌∙◌, List, [], ◌∷◌, ◌++◌, map, arith,
  length, take, drop, All, ok, length-take, take-take, take-drop, dec_le, get_or, get_or-take,
}
use dokevi_network.Bytes.{uint_of_bytes}
use dokevi_network.Framing.{Frames, stop, more}
use dokevi_network.Client.{
  Client, Event, recv_handler, get_protocol, widened, hand_over, deserialize_loop,
}
use dokevi_network.Client.Rounds.{IsValid, contents, length-contents, hand_over_lem}

-- What RecvHandler is given of a frame: protocol, payload and size.
abbrev pub Delivery : Type 0
Delivery = ℕ × List ℕ × ℕ

-- RecvHandler sees the payload as the `size - 8` bytes from `data` on.
abbrev pub deliveries : List Event → List Delivery
deliveries [] = []
deliveries (recv_handler protocol rest size ∷ es) =
    (protocol, take (size - 8) rest, size) ∷ deliveries es

abbrev pub delivery : List ℕ → Delivery
delivery f = (get_protocol f, drop 8 f, length f)

pub deliveries-append :
    (es es' : List Event) → deliveries (es ++ es') ≡ deliveries es ++ deliveries es'
deliveries-append [] es' = refl
deliveries-append (recv_handler p rest n ∷ es) es' =
    ap (λ l. (p, take (n - 8) rest, n) ∷ l) (deliveries-append es es')

-- A frame with room for its two numbers.
abbrev pub HasHeader : List ℕ → Type 0
HasHeader f = 8 ≤ length f

-- The loop returns, having handed over the frames `fs`, and keeps `rest`.
abbrev pub Cuts : ℕ → Client → List (List ℕ) → List ℕ → Type 0
Cuts fuel c fs rest =
    (c' : Client) × (es : List Event) × (deserialize_loop fuel c ≡ ok (c', es))
    × (deliveries es ≡ map delivery fs)
    × IsValid c'
    × (contents c' ≡ rest)

-- A stream of at most four bytes holds no frame that has its header.
pub no-Frames :
    {s : List ℕ} {fs : List (List ℕ)} {rest : List ℕ}
    → Frames s fs rest
    → length s ≤ 4
    → All HasHeader fs
    → (fs ≡ []) × (rest ≡ s)
no-Frames (stop p) h good = (refl, refl)
no-Frames (more {s = s} a b d f) h good =
    absurd (omega (arith, good.0, length-take (uint_of_bytes s) s))

loop-stop :
    (fuel : ℕ) (c : Client)
    → c.cur_offset < c.buffer_size
    → deserialize_loop (suc fuel) c ≡ ok (c, [])
unfolding deserialize_loop
loop-stop fuel c h = ground arith

module _ (fuel : ℕ) (c c' : Client) (es : List Event) (some_size : 1 ≤ c.buffer_size)
    (whole : c.buffer_size ≤ c.cur_offset) (given : hand_over c ≡ ok (c', es)) where
  loop-last : c'.cur_offset ≤ 4 → deserialize_loop (suc fuel) c ≡ ok (c', es)
  unfolding deserialize_loop
  loop-last h = ground arith

  loop-more :
      {c'' : Client} {es' : List Event}
      → 4 < c'.cur_offset
      → deserialize_loop fuel c' ≡ ok (c'', es')
      → deserialize_loop (suc fuel) c ≡ ok (c'', es ++ es')
  unfolding deserialize_loop
  loop-more h e = ground arith

-- RecvHandler is given the first frame.
first-delivery :
    (c : Client) (s : List ℕ)
    → IsValid c
    → contents c ≡ s
    → c.buffer_size ≡ uint_of_bytes s
    → c.buffer_size ≤ c.cur_offset
    → HasHeader (take (uint_of_bytes s) s)
    → ◌≡◌ {A = Delivery}
        (
          get_protocol c.packet_buffer,
          take (c.buffer_size - 8) (drop 8 c.packet_buffer),
          c.buffer_size,
        )
        (delivery (take (uint_of_bytes s) s))
unfolding get_protocol
first-delivery c s v now size whole headed = λ i. (protocol i, payload i, announced i)
  where
    front : take c.buffer_size c.packet_buffer ≡ take (uint_of_bytes s) s
    front =
        sym (take-take c.buffer_size c.cur_offset c.packet_buffer whole)
        ∙ ap (take c.buffer_size) now
        ∙ ap (λ k. take k s) size

    announced : c.buffer_size ≡ length (take (uint_of_bytes s) s)
    announced =
        omega (arith, length-take (uint_of_bytes s) s, ap length now, length-contents v, size)

    protocol : get_protocol c.packet_buffer ≡ get_protocol (take (uint_of_bytes s) s)
    protocol = ap widened (
        sym (get_or-take c.buffer_size 4 c.packet_buffer 0 (omega (arith, announced)))
        ∙ ap (λ l. get_or l 4 0) front)

    payload : take (c.buffer_size - 8) (drop 8 c.packet_buffer) ≡ drop 8 (take (uint_of_bytes s) s)
    payload =
        take-drop (c.buffer_size - 8) 8 c.packet_buffer
        ∙ ap (λ k. drop 8 (take k c.packet_buffer)) (omega (arith, announced))
        ∙ ap (drop 8) front

-- With the fuel for its rounds the loop cuts its contents into frames.
pub loop_lem :
    (fuel : ℕ) (c : Client) {s : List ℕ} {fs : List (List ℕ)} {rest : List ℕ}
    → IsValid c
    → 4 < c.cur_offset
    → contents c ≡ s
    → Frames s fs rest
    → All HasHeader fs
    → c.cur_offset < fuel
    → Cuts fuel c fs rest
loop_lem zero c v long now h good m = absurd (omega arith)
loop_lem (suc fuel) c v long now (stop {s = s} p) good m = (
  c,
  [],
  loop-stop fuel c (
      omega (
        arith,
        p,
        ap length now,
        length-contents v,
        v.announced (omega arith),
        ap uint_of_bytes now,
      )),
  refl,
  v,
  now,
)
loop_lem (suc fuel) c v long now (more {s = s} {fs = fs} {rest = rest} a b d h) good m =
    let (c', given, v', left, fewer) = hand_over_lem v some_size whole in
    let left' = left ∙ ap₂ drop size now in
    elim (dec_le c'.cur_offset 4) [
      | yes short ↦
          let (over, same) =
            no-Frames h (omega (arith, ap length left', length-contents v')) good.1 in
          (
            c',
            _,
            loop-last fuel c c' _ some_size whole given short,
            ap₂ ◌∷◌ first (ap (map delivery) (sym over)),
            v',
            left' ∙ sym same,
          )
      | no long' ↦
          let (c'', es, run, seen, v'', now') =
            loop_lem fuel c' v' (omega arith) left' h good.1 (omega (arith, fewer, some_size)) in
          (
            c'',
            _,
            loop-more fuel c c' _ some_size whole given (omega arith) run,
            ap₂ ◌∷◌ first seen,
            v'',
            now',
          )
    ]
  where
    size : c.buffer_size ≡ uint_of_bytes s
    size = v.announced (omega arith) ∙ ap uint_of_bytes now

    some_size : 1 ≤ c.buffer_size
    some_size = omega (arith, size)

    whole : c.buffer_size ≤ c.cur_offset
    whole = omega (arith, size, ap length now, length-contents v)

    first :
        ◌≡◌ {A = Delivery}
          (
            get_protocol c.packet_buffer,
            take (c.buffer_size - 8) (drop 8 c.packet_buffer),
            c.buffer_size,
          )
          (delivery (take (uint_of_bytes s) s))
    first = first-delivery c s v now size whole good.0
