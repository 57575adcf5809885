-- ===== src/LiveAudio/Fragment/Chunks.antt =====
-- Samples that come in two fragments, and the same samples in one.
use zamt.Prelude.{
  ℕ, zero, suc, ◌+◌, ◌*◌, ◌≤◌, ◌<◌, ◌≡◌, inl, inr, refl, sym, ◌∙◌, ap, Bool, true, false,
  if◌then◌else◌, none, List, [], ◌∷◌, ◌++◌, some, arith, length, take, drop, map, length-append,
  length-take, take-append, subst,
}
use mathlib.Core.List.{append_assoc, append-nil}
use zamt.LiveAudio.Fragment.{StereoSample, at, Audio, Packet, Processed, Latency, process_fragment}
use zamt.LiveAudio.Fragment.Samples.{IsReady, AllSized, AllFull, Accounts, buffered, contents}
use zamt.LiveAudio.Fragment.Loop.{process_fragment-Accounts}

abbrev pub packet_samples : List Packet → List (List StereoSample)
packet_samples ps = map (λ p. p.samples) ps

contents-append : (ps qs : List Packet) → contents (ps ++ qs) ≡ contents ps ++ contents qs
contents-append [] qs = refl
contents-append (p ∷ ps) qs =
    ap (λ xs. p.samples ++ xs) (contents-append ps qs)
    ∙ sym (append_assoc p.samples (contents ps) (contents qs))

AllFull-append : (n : ℕ) (ps qs : List Packet) → AllFull n ps → AllFull n qs → AllFull n (ps ++ qs)
AllFull-append n [] qs h k = k
AllFull-append n (p ∷ ps) qs h k = (h.0, AllFull-append n ps qs h.1 k)

length-contents : (n : ℕ) (ps : List Packet) → AllFull n ps → length (contents ps) ≡ n * length ps
length-contents n [] h = grind arith
length-contents n (p ∷ ps) h =
    grind (arith, length-append p.samples (contents ps), length-contents n ps h.1)

drop-append {ℓ} : {A : Type ℓ} (n : ℕ) (xs ys : List A) → length xs ≡ n → drop n (xs ++ ys) ≡ ys
drop-append zero [] ys h = refl
drop-append zero (x ∷ xs) ys h = absurd (omega arith)
drop-append (suc n) [] ys h = absurd (omega arith)
drop-append (suc n) (x ∷ xs) ys h = drop-append n xs ys (omega arith)

-- There is one way to cut samples into full packets and a rest that is not full.
cut_unique :
    (n : ℕ) (ps qs : List Packet) (xs ys : List StereoSample)
    → AllFull n ps
    → AllFull n qs
    → length xs < n
    → length ys < n
    → contents ps ++ xs ≡ contents qs ++ ys
    → (packet_samples ps ≡ packet_samples qs) × (xs ≡ ys)
cut_unique n [] [] xs ys h k small small' e = (refl, e)
cut_unique n [] (q ∷ qs) xs ys h k small small' e = absurd (
    omega (
      arith,
      ap length e,
      length-append (q.samples ++ contents qs) ys,
      length-append q.samples (contents qs),
      k.0,
    ))
cut_unique n (p ∷ ps) [] xs ys h k small small' e = absurd (
    omega (
      arith,
      ap length e,
      length-append (p.samples ++ contents ps) xs,
      length-append p.samples (contents ps),
      h.0,
    ))
cut_unique n (p ∷ ps) (q ∷ qs) xs ys h k small small' e =
    let whole : p.samples ++ (contents ps ++ xs) ≡ q.samples ++ (contents qs ++ ys) =
      sym (append_assoc p.samples (contents ps) xs)
      ∙ (e ∙ append_assoc q.samples (contents qs) ys) in
    let first : p.samples ≡ q.samples =
      sym (take-append n p.samples (contents ps ++ xs) h.0)
      ∙ (ap (take n) whole ∙ take-append n q.samples (contents qs ++ ys) k.0) in
    let others : contents ps ++ xs ≡ contents qs ++ ys =
      sym (drop-append n p.samples (contents ps ++ xs) h.0)
      ∙ (ap (drop n) whole ∙ drop-append n q.samples (contents qs ++ ys) k.0) in
    let (rest, left) = cut_unique n ps qs xs ys h.1 k.1 small small' others in
    (both first rest, left)
  where
    both :
        {a b : List StereoSample} {us vs : List (List StereoSample)}
        → a ≡ b
        → us ≡ vs
        → a ∷ us ≡ b ∷ vs
    both h k = cc

length-buffered : (a : Audio) → IsReady a → length (buffered a) ≡ a.sample_buffer_filled
length-buffered a v =
    length-take a.sample_buffer_filled a.sample_buffer (omega (arith, v.room, v.sized))

-- More samples would be lost than there are.
too_much :
    (a : Audio) (xs : List StereoSample) (pool : List (List StereoSample)) (r : Processed)
    → IsReady a
    → a.sample_buffer_filled + length xs < a.submit_buffer_size * (length pool + 1)
    → (acc : Accounts a xs pool r) → length r.submitted ≡ length pool
    → a.submit_buffer_size ≤ r.audio.sample_buffer_filled + length acc.lost
    → ⊥
too_much a xs pool r v room acc used_up much = grind (
  arith,
  room,
  much,
  used_up,
  length-contents a.submit_buffer_size r.submitted acc.full,
  ap length acc.all,
  length-append (contents r.submitted) (buffered r.audio ++ acc.lost),
  length-append (buffered r.audio) acc.lost,
  length-append (buffered a) xs,
  length-buffered a v,
  length-buffered r.audio acc.ready,
)

-- A call whose pool has room for all samples loses none.
keeps_all :
    (a : Audio) (xs : List StereoSample) (pool : List (List StereoSample)) (r : Processed)
    → IsReady a
    → a.sample_buffer_filled + length xs < a.submit_buffer_size * (length pool + 1)
    → Accounts a xs pool r
    → contents r.submitted ++ buffered r.audio ≡ buffered a ++ xs
keeps_all a xs pool r v room acc = elim acc.losses [
  | inl (_, none_lost) ↦
      ap (λ ys. contents r.submitted ++ ys)
        (sym (append-nil (buffered r.audio)) ∙ ap (λ ys. buffered r.audio ++ ys) (sym none_lost))
      ∙ acc.all
  | inr (_, used_up, much) ↦ absurd (too_much a xs pool r v room acc used_up much)
]

buffered-le :
    (a : Audio) (xs : List StereoSample) (pool : List (List StereoSample)) (r : Processed)
    → IsReady a
    → a.sample_buffer_filled + length xs < a.submit_buffer_size * (length pool + 1)
    → Accounts a xs pool r
    → r.audio.sample_buffer_filled ≤ a.sample_buffer_filled + length xs
buffered-le a xs pool r v room acc = omega (
  arith,
  ap length (keeps_all a xs pool r v room acc),
  length-append (contents r.submitted) (buffered r.audio),
  length-append (buffered a) xs,
  length-buffered a v,
  length-buffered r.audio acc.ready,
)

-- Neither does it lack a packet.
no_overrun :
    (a : Audio) (xs : List StereoSample) (pool : List (List StereoSample)) (r : Processed)
    → IsReady a
    → a.sample_buffer_filled + length xs < a.submit_buffer_size * (length pool + 1)
    → Accounts a xs pool r
    → r.overrun ≡ false
no_overrun a xs pool r v room acc = elim acc.losses [
  | inl (fine, _) ↦ fine
  | inr (_, used_up, much) ↦ absurd (too_much a xs pool r v room acc used_up much)
]

-- So both builds do the same.
either_build :
    (ndebug : Bool) (a : Audio) (xs : List StereoSample) (now : ℕ) (latency : Latency)
    (pool : List (List StereoSample)) (r : Processed)
    → process_fragment true a (at xs) (length xs) now latency pool ≡ some r
    → process_fragment false a (at xs) (length xs) now latency pool
      ≡ (if r.overrun then none else some r)
    → r.overrun ≡ false
    → process_fragment ndebug a (at xs) (length xs) now latency pool ≡ some r
either_build true a xs now latency pool r runs checked fine = runs
either_build false a xs now latency pool r runs checked fine =
    checked ∙ ap (λ lacks. if lacks then none else some r) fine

Accounts-append :
    (a : Audio) (xs ys : List StereoSample) (pool : List (List StereoSample)) (r r1 r2 : Processed)
    → IsReady a
    → Accounts a (xs ++ ys) pool r
    → Accounts a xs pool r1
    → Accounts r1.audio ys pool r2
    → a.sample_buffer_filled + (length xs + length ys) < a.submit_buffer_size * (length pool + 1)
    → (packet_samples r.submitted ≡ packet_samples (r1.submitted ++ r2.submitted))
      × (buffered r.audio ≡ buffered r2.audio)
Accounts-append a xs ys pool r r1 r2 v acc acc1 acc2 room =
    let all : contents r.submitted ++ buffered r.audio ≡ buffered a ++ (xs ++ ys) =
      keeps_all a (xs ++ ys) pool r v (omega (arith, room, length-append xs ys)) acc in
    let all1 : contents r1.submitted ++ buffered r1.audio ≡ buffered a ++ xs =
      keeps_all a xs pool r1 v (omega (arith, room)) acc1 in
    let less : r1.audio.sample_buffer_filled ≤ a.sample_buffer_filled + length xs =
      buffered-le a xs pool r1 v (omega (arith, room)) acc1 in
    let all2 : contents r2.submitted ++ buffered r2.audio ≡ buffered r1.audio ++ ys =
      keeps_all r1.audio ys pool r2 acc1.ready (rw acc1.same_size (omega (arith, room, less)))
        acc2 in
    let both : contents (r1.submitted ++ r2.submitted) ++ buffered r2.audio
        ≡ buffered a ++ (xs ++ ys) =
      ap (λ zs. zs ++ buffered r2.audio) (contents-append r1.submitted r2.submitted)
      ∙ (append_assoc (contents r1.submitted) (contents r2.submitted) (buffered r2.audio)
          ∙ (ap (λ zs. contents r1.submitted ++ zs) all2
              ∙ (sym (append_assoc (contents r1.submitted) (buffered r1.audio) ys)
                  ∙ (ap (λ zs. zs ++ ys) all1 ∙ append_assoc (buffered a) xs ys)))) in
    cut_unique a.submit_buffer_size r.submitted (r1.submitted ++ r2.submitted) (buffered r.audio)
      (buffered r2.audio) acc.full
      (AllFull-append a.submit_buffer_size r1.submitted r2.submitted acc1.full
        (subst (λ n. AllFull n r2.submitted) acc1.same_size acc2.full))
      (rw (length-buffered r.audio acc.ready) (rw (← acc.same_size) acc.ready.room))
      (rw (length-buffered r2.audio acc2.ready)
        (omega (arith, acc2.ready.room, acc2.same_size, acc1.same_size)))
      (all ∙ sym both)

-- However a stream is cut into fragments, the packets are the same: with enough free packets, two
-- calls for one part after the other submit the same samples in the same packets as one call for
-- both parts, and leave the same samples buffered, whenever the calls come and whatever the latency
-- is.
pub process_fragment-append :
    (ndebug : Bool) (a : Audio) (xs ys : List StereoSample) (pool : List (List StereoSample))
    (now now1 now2 : ℕ) (latency latency1 latency2 : Latency)
    → IsReady a
    → a.audio_loop_should_run ≡ true
    → 0 < a.usec_per_sample_shl
    → 0 < a.hw_latency_in_us
    → 0 < length xs
    → 0 < length ys
    → AllSized a.submit_buffer_size pool
    → a.sample_buffer_filled + (length xs + length ys) < a.submit_buffer_size * (length pool + 1)
    → (r r1 r2 : Processed) × (process_fragment ndebug a
          (at (xs ++ ys))
          (length (xs ++ ys))
          now
          latency
          pool
        ≡ some r)
      × (process_fragment ndebug a (at xs) (length xs) now1 latency1 pool ≡ some r1)
      × (process_fragment ndebug r1.audio (at ys) (length ys) now2 latency2 pool ≡ some r2)
      × (packet_samples r.submitted ≡ packet_samples (r1.submitted ++ r2.submitted))
      × (buffered r.audio ≡ buffered r2.audio)
process_fragment-append ndebug a xs ys pool now now1 now2 latency latency1 latency2 v run rate hw
      some_x some_y sized room =
    let (r, runs, checked, acc) =
      process_fragment-Accounts a (xs ++ ys) now latency pool v run rate hw
        (omega (arith, length-append xs ys)) sized in
    let (r1, runs1, checked1, acc1) =
      process_fragment-Accounts a xs now1 latency1 pool v run rate hw some_x sized in
    let (r2, runs2, checked2, acc2) =
      process_fragment-Accounts r1.audio ys now2 latency2 pool acc1.ready (acc1.same_run ∙ run)
        (rw acc1.same_rate rate) (rw acc1.same_latency hw) some_y
        (subst (λ n. AllSized n pool) (sym acc1.same_size) sized) in
    let (same, left) = Accounts-append a xs ys pool r r1 r2 v acc acc1 acc2 room in
    let fine = no_overrun a (xs ++ ys) pool r v (omega (arith, room, length-append xs ys)) acc in
    let fine1 = no_overrun a xs pool r1 v (omega (arith, room)) acc1 in
    let less : r1.audio.sample_buffer_filled ≤ a.sample_buffer_filled + length xs =
      buffered-le a xs pool r1 v (omega (arith, room)) acc1 in
    let fine2 =
      no_overrun r1.audio ys pool r2 acc1.ready (rw acc1.same_size (omega (arith, room, less)))
        acc2 in
    (
      r,
      r1,
      r2,
      either_build ndebug a (xs ++ ys) now latency pool r runs checked fine,
      either_build ndebug a xs now1 latency1 pool r1 runs1 checked1 fine1,
      either_build ndebug r1.audio ys now2 latency2 pool r2 runs2 checked2 fine2,
      same,
      left,
    )
