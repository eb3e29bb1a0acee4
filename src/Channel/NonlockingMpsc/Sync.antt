-- ===== src/Channel/NonlockingMpsc/Sync.antt =====
-- The queue of channel indices keeps step with the channels.
use hi_cr.Prelude.{
  ℕ, zero, suc, ◌-◌, ◌^◌, ◌≡◌, ◌≤◌, ◌<◌, List, [], ◌++◌, length, ok, refl, arith, ◌∙◌, sym, dec_lt,
  replicate, append_assoc, append-nil,
}
use hi_cr.Channel.CircularBuffer.Inv.{get_depth_lem}
use hi_cr.Channel.FixedSpsc.{Spsc}
use hi_cr.Channel.FixedSpsc.Inv as Channel
use hi_cr.Channel.NonlockingMpsc.{
  Mpsc, read_depths, record_pushes, sum_depths, update_depth, replace,
}
use hi_cr.Channel.NonlockingMpsc.Counts.{
  count, sum, sum-eq, sum-count, sum_depths-sum, count-record_pushes,
}

-- The tokens that a channel holds, which may be more than the snapshot says.
abbrev pub depth : Mpsc → ℕ → ℕ
depth c i = (c.channels i).consumer.head - (c.channels i).consumer.tail

pub record IsValid (c : Mpsc) : Type 0 where
  pub channels : (i : ℕ) → i < c.producers → Channel.IsValid (c.channels i)
  pub counted : (i : ℕ) → i < c.producers → count i c.pushes ≡ c.depths i
  pub behind : (i : ℕ) → i < c.producers → c.depths i ≤ depth c i
  pub known : (i : ℕ) → c.producers ≤ i → count i c.pushes ≡ 0
  pub word : sum (depth c) c.producers < 2 ^ 64

read_depths_lem :
    (channels : ℕ → Spsc) (n : ℕ)
    → ((i : ℕ) → i < n → Channel.IsValid (channels i))
    → (d : ℕ → ℕ) × (read_depths channels n ≡ ok d)
      × ((i : ℕ) → i < n → d i ≡ (channels i).consumer.head - (channels i).consumer.tail)
unfolding read_depths
read_depths_lem channels zero v = ((λ k. 0), refl, λ i lt. absurd (omega arith))
read_depths_lem channels (suc n) v =
    let (d, e, f) = read_depths_lem channels n (λ i lt. v i (omega arith)) in
    let last = (v n (omega arith)).buffer in
    (
      replace d n ((channels n).consumer.head - (channels n).consumer.tail),
      rw (e, get_depth_lem last) refl,
      λ i lt. elim (dec_lt i n) [
        | yes p ↦ ground (arith, f i p)
        | no p ↦ let same : i ≡ n = omega arith in rw same (ground arith)
      ],
    )

-- The indices that the recording appends.
record_pushes-append :
    (old new : ℕ → ℕ) (n : ℕ) (l : List ℕ) → (k : List ℕ) × (record_pushes old new n l ≡ l ++ k)
unfolding record_pushes
record_pushes-append old new zero l = ([], sym (append-nil l))
record_pushes-append old new (suc n) l =
    let (k, e) = record_pushes-append old new n l in
    (k ++ replicate (new n - old n) n, rw e (append_assoc l k (replicate (new n - old n) n)))

-- What an update of the depths leaves.
pub record Updated (c c' : Mpsc) : Type 0 where
  pub valid : IsValid c'
  pub channels : c'.channels ≡ c.channels
  pub producers : c'.producers ≡ c.producers
  pub exact : (i : ℕ) → i < c'.producers → c'.depths i ≡ depth c' i
  pub total : sum_depths c'.depths c'.producers ≡ length c'.pushes
  pub later : (k : List ℕ) × (c'.pushes ≡ c.pushes ++ k)

-- On a valid channel an update succeeds, whatever the producers have sent since the last one: the
-- queue keeps its order and grows at its end, and afterwards each channel stands in it as often as
-- it holds tokens.
pub update_depth_lem :
    {c : Mpsc} → IsValid c → (c' : Mpsc) × (update_depth c ≡ ok c') × Updated c c'
unfolding update_depth
update_depth_lem {c} v =
    let (d, e, f) = read_depths_lem c.channels c.producers v.channels in
    let pushes : List ℕ = record_pushes c.depths d c.producers c.pushes in
    let counts : (i : ℕ) → i < c.producers → count i pushes ≡ d i = λ i lt. ground (
      arith,
      count-record_pushes c.depths d c.producers i c.pushes,
      v.counted i lt,
      v.behind i lt,
      f i lt,
    ) in
    let known : (i : ℕ) → c.producers ≤ i → count i pushes ≡ 0 =
      λ i le. ground (arith, count-record_pushes c.depths d c.producers i c.pushes, v.known i le) in
    let whole : sum d c.producers ≡ sum (depth c) c.producers = sum-eq d (depth c) c.producers f in
    let total : sum_depths d c.producers ≡ length pushes =
      sum_depths-sum d c.producers (omega (arith, whole, v.word))
      ∙ (sum-eq d (λ i. count i pushes) c.producers (λ i lt. sym (counts i lt))
          ∙ sum-count pushes c.producers known) in
    (
      record c { depths = d; pushes = pushes },
      rw e (ground (arith, total)),
      record {
        valid = record {
          channels = v.channels;
          counted = counts;
          behind = λ i lt. omega (arith, f i lt);
          known = known;
          word = v.word;
        };
        channels = refl;
        producers = refl;
        exact = f;
        total = total;
        later = record_pushes-append c.depths d c.producers c.pushes;
      },
    )
