-- ===== src/Visualizer/Drawing.antt =====
-- Packets shown by the visualizer, and what is drawn then.
use mathlib.Core.List.{append_assoc, append-nil}
use zamt.Prelude.{
  ℕ, suc, ◌<◌, ◌≡◌, refl, ap, sym, ◌∙◌, List, [], ◌∷◌, ◌++◌, length, take, drop, set, map, arith,
  length-set, length-append, length-drop,
}
use zamt.Prelude.Int.{ℤ}
use zamt.LiveAudio.Fragment.{StereoSample}
use zamt.Visualizer.{
  Visualizer, center_of, side_of, next_position, update_buffer, drawn_center, drawn_side,
}
use zamt.Visualizer.Window.{IsRing, window, window-set, read_ring-window, next_position-cases}

abbrev written : StereoSample → Visualizer → Visualizer
written s v = record {
  buffer_position = next_position v.buffer_position;
  center_buffer = set v.center_buffer v.buffer_position (center_of s);
  side_buffer = set v.side_buffer v.buffer_position (side_of s);
}

IsRing-written : (s : StereoSample) (v : Visualizer) → IsRing v → IsRing (written s v)
IsRing-written s v h = record {
  position =
      next_position-cases (λ q. q < 512) v.buffer_position h.position (λ m. m) (λ e. omega arith);
  centers = length-set v.center_buffer v.buffer_position (center_of s) ∙ h.centers;
  sides = length-set v.side_buffer v.buffer_position (side_of s) ∙ h.sides;
}

drop-append-1 :
    (n : ℕ) (xs ys : List ℤ) → 0 < length xs → drop (suc n) (xs ++ ys) ≡ drop n (drop 1 xs ++ ys)
drop-append-1 n [] ys h = absurd (omega arith)
drop-append-1 n (x ∷ xs) ys h = refl

length-window :
    (p : ℕ) (buffer : List ℤ) → length buffer ≡ 512 → p < 512 → 0 < length (window p buffer)
length-window p buffer size small =
    omega (arith, size, length-append (drop p buffer) (take p buffer), length-drop p buffer, small)

-- One more sample slides the window on.
slide :
    (n p : ℕ) (buffer rest : List ℤ) (x : ℤ)
    → length buffer ≡ 512
    → p < 512
    → drop n (window (next_position p) (set buffer p x) ++ rest)
      ≡ drop (suc n) (window p buffer ++ (x ∷ rest))
slide n p buffer rest x size small =
    ap (λ w. drop n (w ++ rest)) (window-set p buffer x size small)
    ∙ (ap (drop n) (append_assoc (drop 1 (window p buffer)) (x ∷ []) rest)
        ∙ sym (drop-append-1 n (window p buffer) (x ∷ rest) (length-window p buffer size small)))

update_buffer-window :
    (packet : List StereoSample) (v : Visualizer)
    → IsRing v
    → (let v' = update_buffer packet v in
        IsRing v'
        × (window v'.buffer_position v'.center_buffer
            ≡ drop
                (length packet)
                (window v.buffer_position v.center_buffer ++ map center_of packet))
        × (window v'.buffer_position v'.side_buffer
            ≡ drop (length packet) (window v.buffer_position v.side_buffer ++ map side_of packet)))
unfolding update_buffer
update_buffer-window [] v h = (h, sym (append-nil _), sym (append-nil _))
update_buffer-window (s ∷ packet) v h =
    let (ring, center, side) = update_buffer-window packet (written s v) (IsRing-written s v h) in
    (
      ring,
      center
          ∙ slide (length packet) v.buffer_position v.center_buffer (map center_of packet)
              (center_of s) h.centers h.position,
      side
          ∙ slide (length packet) v.buffer_position v.side_buffer (map side_of packet) (side_of s)
              h.sides h.position,
    )

-- UpdateBuffer keeps the position inside the buffers and their size, and Draw shows the last 512
-- samples in the order in which they came, the center and the side of each: the samples of a packet
-- follow those that were shown before, and as many of the oldest drop out, however long the packet.
pub update_buffer-drawn :
    (packet : List StereoSample) (v : Visualizer)
    → IsRing v
    → (let v' = update_buffer packet v in
        IsRing v'
        × (drawn_center v' ≡ drop (length packet) (drawn_center v ++ map center_of packet))
        × (drawn_side v' ≡ drop (length packet) (drawn_side v ++ map side_of packet)))
unfolding drawn_center drawn_side
update_buffer-drawn packet v h =
    let (ring, center, side) = update_buffer-window packet v h in
    let v' = update_buffer packet v in
    (
      ring,
      read_ring-window v'.buffer_position v'.center_buffer ring.centers ring.position
          ∙ (center
              ∙ ap (λ w. drop (length packet) (w ++ map center_of packet))
                  (sym (read_ring-window v.buffer_position v.center_buffer h.centers h.position))),
      read_ring-window v'.buffer_position v'.side_buffer ring.sides ring.position
          ∙ (side
              ∙ ap (λ w. drop (length packet) (w ++ map side_of packet))
                  (sym (read_ring-window v.buffer_position v.side_buffer h.sides h.position))),
    )
