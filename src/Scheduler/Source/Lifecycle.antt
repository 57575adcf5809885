-- ===== src/Scheduler/Source/Lifecycle.antt =====
-- The life of a packet under GetPacketForSubmission, SubmitPacket and ReleasePacket: unused,
-- loading (with the source that asked for it), queued (with its references), and unused again.
use zamt.Prelude.{
  ℕ, zero, suc, ◌*◌, ◌^◌, ◌<◌, ◌≡◌, ◌≢◌, refl, sym, ◌∙◌, ap, Bool, true, false, List, [], ◌∷◌, some,
  arith, ◌==◌, if◌then◌else◌, none, length, get_or, set, count, get_or-set,
}
use zamt.Scheduler.Source.{Source, get_packet, check_in_use, recycle, free_if_unused}
use zamt.Scheduler.Source.Valid.{
  IsValid, get_or-default, below_of_used, used-pos, acquire-IsValid, set_refs-IsValid,
  free_if_unused-IsValid,
}

pub data PacketState : Type 0 where
  unused loading : PacketState
  queued : ℕ → PacketState

-- A packet in use with no reference is being loaded by its source.
abbrev pub with_refs : ℕ → PacketState
with_refs k = if k == 0 then loading else queued k

abbrev pub state_of : Source → ℕ → PacketState
state_of src n =
    if get_or src.packet_usages n false then with_refs (get_or src.packet_refcounts n 0) else unused

-- What is left of a packet with `k` references at the end of SubmitPacket or ReleasePacket.
abbrev pub settle : ℕ → PacketState
settle k = if k == 0 then unused else queued k

-- `dst` is `src` with packet `n` in the state `s`, and as it was but for that.
pub record Moves (src : Source) (n : ℕ) (s : PacketState) (dst : Source) : Type 0 where
  pub size : dst.packet_size ≡ src.packet_size
  pub buffer : dst.packet_buffer ≡ src.packet_buffer
  pub subscriptions : dst.subscriptions ≡ src.subscriptions
  pub states : (j : ℕ) → state_of dst j ≡ (if n == j then s else state_of src j)

pub packet_fits :
    {src : Source} (n : ℕ)
    → IsValid src
    → n < length src.packet_usages
    → n * src.packet_size < 2 ^ 31
packet_fits {src} n v below = grind (arith, v.positive, v.fits)

-- The asserts on a packet in use hold.
pub check_in_use-passes :
    {src : Source} (n : ℕ)
    → IsValid src
    → get_or src.packet_usages n false ≡ true
    → check_in_use src n ≡ some tt
unfolding check_in_use
check_in_use-passes {src} n v in_use = ground (
  arith,
  v.sized,
  v.counted,
  used-pos src.packet_usages n in_use,
  below_of_used src.packet_usages n in_use,
)

-- A source with no free packet answers with a null pointer, and nothing changes.
pub get_packet-nil : {src : Source} → src.free_packets ≡ [] → get_packet src ≡ some (none, src)
unfolding get_packet
get_packet-nil {src} e = ground (arith, e)

-- A source with a free packet hands it out: no assert fails, the pointer is that of an unused
-- packet inside the buffer, and only this packet changes, to loading.
pub get_packet-cons :
    {src : Source} (n : ℕ) (rest : List ℕ)
    → IsValid src
    → src.free_packets ≡ n ∷ rest
    → (dst : Source) × (get_packet src ≡ some (some (n * src.packet_size), dst))
      × IsValid dst
      × (n < length src.packet_usages)
      × (state_of src n ≡ unused)
      × Moves src n loading dst
unfolding get_packet
get_packet-cons {src} n rest v e =
    (dst, runs, acquire-IsValid n rest v e below, below, rw free_now, moves)
  where
    listed : get_or src.packet_usages n true ≡ false
    listed = ground (arith, ap (count n) e, v.free n)

    below : n < length src.packet_usages
    below = outside src.packet_usages n listed
      where
        outside : (us : List Bool) (i : ℕ) → get_or us i true ≡ false → i < length us
        outside [] i h = cc
        outside (u ∷ us) zero h = omega arith
        outside (u ∷ us) (suc i) h = omega (arith, outside us i h)

    free_now : get_or src.packet_usages n false ≡ false
    free_now = sym (get_or-default src.packet_usages n true false below) ∙ listed

    dst : Source
    dst = record src { free_packets = rest; packet_usages = set src.packet_usages n true }

    bare : get_or src.packet_refcounts n 1 ≡ 0
    bare = get_or-default src.packet_refcounts n 1 0 (rw v.sized below) ∙ v.idle n listed

    runs : get_packet src ≡ some (some (n * src.packet_size), dst)
    runs = ground (arith, e, v.sized, v.counted, listed, bare, below)

    moves : Moves src n loading dst
    moves = record {
      size = refl;
      buffer = refl;
      subscriptions = refl;
      states =
          λ j. ground (arith, get_or-set src.packet_usages n j true false below, v.idle n listed);
    }

-- The last step of SubmitPacket and ReleasePacket settles the packet by its references.
free_if_unused-Moves :
    (src : Source) (n : ℕ)
    → get_or src.packet_usages n false ≡ true
    → Moves src n (settle (get_or src.packet_refcounts n 0)) (free_if_unused n src)
unfolding free_if_unused recycle
free_if_unused-Moves src n in_use = record {
  size = ground arith;
  buffer = ground arith;
  subscriptions = ground arith;
  states = λ j. ground (
    arith,
    get_or-set src.packet_usages n j false false (below_of_used src.packet_usages n in_use),
    in_use,
  );
}

in_use_of_state :
    (src : Source) (n : ℕ) → state_of src n ≢ unused → get_or src.packet_usages n false ≡ true
in_use_of_state src n h = ground arith

pub refs_of_loading :
    (src : Source) (n : ℕ) → state_of src n ≡ loading → get_or src.packet_refcounts n 0 ≡ 0
refs_of_loading src n h = ground arith

pub refs_of_queued :
    (src : Source) (n k : ℕ)
    → state_of src n ≡ queued k
    → (get_or src.packet_refcounts n 0 ≡ k) × (0 < k)
refs_of_queued src n k h = ground arith

-- The references of one packet are rewritten and then it is settled.
pub settle_packet :
    {src : Source} (n : ℕ) (refs : List ℕ) (k : ℕ)
    → IsValid src
    → get_or src.packet_usages n false ≡ true
    → length refs ≡ length src.packet_refcounts
    → ((j : ℕ) → get_or refs j 0 ≡ (if n == j then k else get_or src.packet_refcounts j 0))
    → let dst = free_if_unused n (record src { packet_refcounts = refs }) in
      IsValid dst × Moves src n (settle k) dst
settle_packet {src} n refs k v in_use same at = (
  free_if_unused-IsValid n
      (set_refs-IsValid n refs v (get_or-default src.packet_usages n true false below ∙ in_use) same
        (λ i ne. ground (arith, at i)))
      in_use,
  record {
    size = (moved refs).size;
    buffer = (moved refs).buffer;
    subscriptions = (moved refs).subscriptions;
    states = λ j. ground (arith, (moved refs).states j, at j, at n, in_use);
  },
)
  where
    below : n < length src.packet_usages
    below = below_of_used src.packet_usages n in_use

    moved :
        (rs : List ℕ)
        → Moves
            (record src { packet_refcounts = rs })
            n
            (settle (get_or rs n 0))
            (free_if_unused n (record src { packet_refcounts = rs }))
    moved rs = free_if_unused-Moves (record src { packet_refcounts = rs }) n in_use
