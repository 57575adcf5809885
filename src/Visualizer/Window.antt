-- ===== src/Visualizer/Window.antt =====
-- A ring buffer read as a list, from the position on.
use mathlib.Core.List.{append_assoc, append-nil}
use zamt.Prelude.{
  drop_all, ℕ, zero, suc, ◌+◌, ◌≤◌, ◌<◌, ◌≡◌, refl, ap, sym, ◌∙◌, subst, true, false, List, [], ◌∷◌,
  ◌++◌, ltb, length, get_or, set, take, drop, arith, length-drop, Bool-cases, inl, inr,
}
use zamt.Prelude.Int.{ℤ, pos}
use zamt.Visualizer.{Visualizer, next_position, read_ring}

-- A ring read from a position on.
abbrev pub window : ℕ → List ℤ → List ℤ
window p buffer = drop p buffer ++ take p buffer

drop-suc : (p : ℕ) (xs : List ℤ) → p < length xs → drop p xs ≡ get_or xs p (pos 0) ∷ drop (suc p) xs
drop-suc p [] h = absurd (omega arith)
drop-suc zero (x ∷ xs) h = refl
drop-suc (suc p) (x ∷ xs) h = drop-suc p xs (omega arith)

take-append-le : (n : ℕ) (xs ys : List ℤ) → n ≤ length xs → take n (xs ++ ys) ≡ take n xs
take-append-le zero xs ys h = refl
take-append-le (suc n) [] ys h = absurd (omega arith)
take-append-le (suc n) (x ∷ xs) ys h = ap (◌∷◌ x) (take-append-le n xs ys (omega arith))

take-append-add : (n : ℕ) (xs ys : List ℤ) → take (length xs + n) (xs ++ ys) ≡ xs ++ take n ys
take-append-add n [] ys = ap (λ k. take k ys) (omega arith)
take-append-add n (x ∷ xs) ys =
    let e : length (x ∷ xs) + n ≡ suc (length xs + n) = omega arith in
    ap (λ k. take k (x ∷ (xs ++ ys))) e ∙ ap (◌∷◌ x) (take-append-add n xs ys)

next-small : (p : ℕ) → suc p < 512 → next_position p ≡ suc p
unfolding next_position
next-small p h = ground arith

next-last : (p : ℕ) → suc p ≡ 512 → next_position p ≡ 0
unfolding next_position
next-last p h = ground (arith, h)

ltb-true : (a b : ℕ) → ltb a b ≡ true → a < b
ltb-true a b h = ground (arith, h)

ltb-false : (a b : ℕ) → ltb a b ≡ false → b ≤ a
ltb-false a b h = ground (arith, h)

-- To prove a property of the next position, prove it in the middle and at the end of the ring.
pub next_position-cases :
    (P : ℕ → Type 0) (p : ℕ)
    → p < 512
    → (suc p < 512 → P (suc p))
    → (suc p ≡ 512 → P 0)
    → P (next_position p)
next_position-cases P p small middle last = elim (Bool-cases (ltb (suc p) 512)) [
  | inl h ↦ subst P (sym (next-small p (ltb-true (suc p) 512 h))) (middle (ltb-true (suc p) 512 h))
  | inr h ↦
      subst P (sym (next-last p (omega (arith, small, ltb-false (suc p) 512 h))))
        (last (omega (arith, small, ltb-false (suc p) 512 h)))
]

read_ring-take :
    (n p : ℕ) (buffer : List ℤ)
    → length buffer ≡ 512
    → p < 512
    → n ≤ 512
    → read_ring n p buffer ≡ take n (drop p buffer ++ buffer)
unfolding read_ring
read_ring-take zero p buffer size small few = refl
read_ring-take (suc n) p buffer size small few =
    ap (◌∷◌ (get_or buffer p (pos 0))) (
      next_position-cases (λ q. read_ring n q buffer ≡ take n (drop (suc p) buffer ++ buffer)) p
        small (λ h. read_ring-take n (suc p) buffer size h (omega arith))
        (λ h.
          read_ring-take n 0 buffer size (omega arith) (omega arith)
          ∙ (take-append-le n buffer buffer (omega arith)
              ∙ ap (λ d. take n (d ++ buffer)) (sym (drop_all (suc p) buffer (omega arith))))))
    ∙ ap (λ d. take (suc n) (d ++ buffer)) (sym (drop-suc p buffer (omega arith)))

pub read_ring-window :
    (p : ℕ) (buffer : List ℤ)
    → length buffer ≡ 512
    → p < 512
    → read_ring 512 p buffer ≡ window p buffer
read_ring-window p buffer size small =
    let e : 512 ≡ length (drop p buffer) + p = omega (arith, length-drop p buffer, size) in
    read_ring-take 512 p buffer size small (omega arith)
    ∙ (ap (λ k. take k (drop p buffer ++ buffer)) e ∙ take-append-add p (drop p buffer) buffer)

set-split :
    (p : ℕ) (xs : List ℤ) (x : ℤ) → p < length xs → set xs p x ≡ take p xs ++ (x ∷ drop (suc p) xs)
set-split p [] x h = absurd (omega arith)
set-split zero (y ∷ xs) x h = refl
set-split (suc p) (y ∷ xs) x h = ap (◌∷◌ y) (set-split p xs x (omega arith))

take-set :
    (p : ℕ) (xs : List ℤ) (x : ℤ)
    → p < length xs
    → take (suc p) (set xs p x) ≡ take p xs ++ (x ∷ [])
take-set p [] x h = absurd (omega arith)
take-set zero (y ∷ xs) x h = refl
take-set (suc p) (y ∷ xs) x h = ap (◌∷◌ y) (take-set p xs x (omega arith))

drop-set : (p : ℕ) (xs : List ℤ) (x : ℤ) → drop (suc p) (set xs p x) ≡ drop (suc p) xs
drop-set p [] x = refl
drop-set zero (y ∷ xs) x = refl
drop-set (suc p) (y ∷ xs) x = drop-set p xs x

-- A sample that is written takes the place of the oldest one.
pub window-set :
    (p : ℕ) (buffer : List ℤ) (x : ℤ)
    → length buffer ≡ 512
    → p < 512
    → window (next_position p) (set buffer p x) ≡ drop 1 (window p buffer) ++ (x ∷ [])
window-set p buffer x size small =
    next_position-cases (λ q. window q (set buffer p x) ≡ drop 1 (window p buffer) ++ (x ∷ [])) p
      small
      (λ h.
        ap (λ d. d ++ take (suc p) (set buffer p x)) (drop-set p buffer x)
        ∙ (ap (◌++◌ (drop (suc p) buffer)) (take-set p buffer x (omega arith))
            ∙ (sym (append_assoc (drop (suc p) buffer) (take p buffer) (x ∷ []))
                ∙ ap (λ d. drop 1 (d ++ take p buffer) ++ (x ∷ []))
                    (sym (drop-suc p buffer (omega arith))))))
      (λ h.
        append-nil (set buffer p x)
        ∙ (set-split p buffer x (omega arith)
            ∙ (ap (λ d. take p buffer ++ (x ∷ d)) (drop_all (suc p) buffer (omega arith))
                ∙ (ap (λ d. (d ++ take p buffer) ++ (x ∷ []))
                      (sym (drop_all (suc p) buffer (omega arith)))
                    ∙ ap (λ d. drop 1 (d ++ take p buffer) ++ (x ∷ []))
                        (sym (drop-suc p buffer (omega arith)))))))

pub record IsRing (v : Visualizer) : Type 0 where
  pub position : v.buffer_position < 512
  pub centers : length v.center_buffer ≡ 512
  pub sides : length v.side_buffer ≡ 512
