-- ===== src/Channel/VariableNonlocking/Sync.antt =====
-- The queue of channel indices keeps step with the channels.
use hi_cr.Prelude.{
  ℕ, zero, suc, ◌+◌, ◌^◌, ◌≡◌, ◌≤◌, ◌<◌, List, [], ◌++◌, length, ok, refl, arith, dec_lt, replicate,
  if◌then◌else◌, ◌==◌,
}
use hi_cr.Channel.CircularBuffer.Inv.{get_depth_lem}
use hi_cr.Channel.NonlockingMpsc.{record_pushes, sum_depths, replace}
use hi_cr.Channel.NonlockingMpsc.Counts.{
  count, count-append, count-replicate, sum, sum-eq, sum_depths-sum,
}
use hi_cr.Channel.NonlockingMpsc.Tracks.{Tracks, record-Tracks, Tracks-length}
use hi_cr.Channel.VariableSpsc.{Channel, get_coordination_depth}
use hi_cr.Channel.VariableSpsc.Inv as Part
use hi_cr.Channel.VariableNonlocking.{Mpsc, create_rounds, read_depths, total_depth, update_depth}

-- The messages that a channel holds, which may be more than the snapshot says.
abbrev pub depth : Mpsc → ℕ → ℕ
depth c i = Part.depth (c.channels i)

pub record IsValid (c : Mpsc) : Type 0 where
  pub channels : (i : ℕ) → i < c.producers → Part.IsValid (c.channels i)
  pub tracks : Tracks c.producers c.depths c.pushes
  pub behind : (i : ℕ) → i < c.producers → c.depths i ≤ depth c i
  pub word : sum (depth c) c.producers < 2 ^ 64

part_depth : {s : Channel} → Part.IsValid s → get_coordination_depth s ≡ ok (Part.depth s)
unfolding get_coordination_depth
part_depth v = get_depth_lem v.counts

read_depths_lem :
    (channels : ℕ → Channel) (n : ℕ)
    → ((i : ℕ) → i < n → Part.IsValid (channels i))
    → (d : ℕ → ℕ) × (read_depths channels n ≡ ok d)
      × ((i : ℕ) → i < n → d i ≡ Part.depth (channels i))
unfolding read_depths
read_depths_lem channels zero v = ((λ k. 0), refl, λ i lt. absurd (omega arith))
read_depths_lem channels (suc n) v =
    let (d, e, f) = read_depths_lem channels n (λ i lt. v i (omega arith)) in
    (
      replace d n (Part.depth (channels n)),
      rw (e, part_depth (v n (omega arith))) refl,
      λ i lt. elim (dec_lt i n) [
        | yes p ↦ ground (arith, f i p)
        | no p ↦ let same : i ≡ n = omega arith in rw same (ground arith)
      ],
    )

-- What an update of the depths leaves.
pub record Updated (c c' : Mpsc) : Type 0 where
  pub valid : IsValid c'
  pub channels : c'.channels ≡ c.channels
  pub producers : c'.producers ≡ c.producers
  pub exact : (i : ℕ) → i < c'.producers → c'.depths i ≡ depth c' i
  pub total : total_depth c' ≡ ok (length c'.pushes)

-- On a valid channel an update succeeds, whatever the producers have sent since the last one.
pub update_lem : {c : Mpsc} → IsValid c → (c' : Mpsc) × (update_depth c ≡ ok c') × Updated c c'
unfolding update_depth total_depth
update_lem {c} v =
    let (d, e, f) = read_depths_lem c.channels c.producers v.channels in
    let tracks =
      record-Tracks c.producers d v.tracks (λ i lt. omega (arith, v.behind i lt, f i lt)) in
    let whole : sum d c.producers ≡ sum (depth c) c.producers = sum-eq d (depth c) c.producers f in
    let total : sum_depths d c.producers ≡ length (record_pushes c.depths d c.producers c.pushes) =
      Tracks-length tracks (omega (arith, whole, v.word)) in
    (
      record c { depths = d; pushes = record_pushes c.depths d c.producers c.pushes },
      rw e (ground (arith, total)),
      record {
        valid = record {
          channels = v.channels;
          tracks = tracks;
          behind = λ i lt. omega (arith, f i lt);
          word = v.word;
        };
        channels = refl;
        producers = refl;
        exact = f;
        total = ground (arith, total);
      },
    )

create_rounds_lem :
    (channels : ℕ → Channel) (n : ℕ)
    → ((i : ℕ) → i < n → Part.IsValid (channels i))
    → (pushes : List ℕ) × (depths : ℕ → ℕ) × (create_rounds channels n
        ≡ ok (record { producers = n; channels = channels; pushes = pushes; depths = depths }))
      × Tracks n depths pushes
      × ((i : ℕ) → i < n → depths i ≡ Part.depth (channels i))
unfolding create_rounds
create_rounds_lem channels zero v = (
  [],
  λ k. 0,
  refl,
  record { counted = λ i lt. refl; known = λ i le. refl },
  λ i lt. absurd (omega arith),
)
create_rounds_lem channels (suc n) v =
    let (l, depths, e, w, exact) = create_rounds_lem channels n (λ i lt. v i (omega arith)) in
    let d : ℕ = Part.depth (channels n) in
    let added : (i : ℕ) → count i (l ++ replicate d n) ≡ count i l + (if i == n then d else 0) =
      λ i. omega (arith, count-append i l (replicate d n), count-replicate i d n) in
    (
      l ++ replicate d n,
      replace depths n d,
      rw (e, part_depth (v n (omega arith))) refl,
      record {
        counted = λ i lt. elim (dec_lt i n) [
          | yes p ↦ ground (arith, added i, w.counted i p)
          | no p ↦ ground (arith, added i, w.known i (omega arith))
        ];
        known = λ i le. ground (arith, added i, w.known i (omega arith));
      },
      λ i lt. elim (dec_lt i n) [
        | yes p ↦ ground (arith, exact i p)
        | no p ↦ let same : i ≡ n = omega arith in rw same (ground arith)
      ],
    )

-- The constructor over valid channels, of which some may already hold messages, whose number has 64
-- bits, succeeds with a valid channel whose queue knows every one of these messages.
pub create_lem :
    (channels : ℕ → Channel) (n : ℕ)
    → ((i : ℕ) → i < n → Part.IsValid (channels i))
    → sum (λ i. Part.depth (channels i)) n < 2 ^ 64
    → (c : Mpsc) × (create_rounds channels n ≡ ok c)
      × IsValid c
      × (total_depth c ≡ ok (sum (λ i. Part.depth (channels i)) n))
unfolding total_depth
create_lem channels n v h =
    let (pushes, depths, e, w, exact) = create_rounds_lem channels n v in
    let whole : sum depths n ≡ sum (λ i. Part.depth (channels i)) n =
      sum-eq depths (λ i. Part.depth (channels i)) n exact in
    let total : sum_depths depths n ≡ length pushes = Tracks-length w (omega (arith, whole)) in
    let flat : sum_depths depths n ≡ sum depths n =
      sum_depths-sum depths n (omega (arith, whole)) in
    (
      record { producers = n; channels = channels; pushes = pushes; depths = depths },
      e,
      record { channels = v; tracks = w; behind = λ i lt. omega (arith, exact i lt); word = h },
      ground (arith, total, flat, whole),
    )
