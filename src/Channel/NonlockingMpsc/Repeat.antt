-- ===== src/Channel/NonlockingMpsc/Repeat.antt =====
-- A second update of the depths.
use hi_cr.Prelude.{
  ℕ, zero, suc, ◌-◌, ◌≡◌, List, ◌++◌, length, ok, refl, arith, ◌∙◌, ap, ap₂, replicate, append-nil,
  Result-cases, ok_injective, ℕ_discrete, subst, inl, inr,
}
use hi_cr.Channel.NonlockingMpsc.{Mpsc, read_depths, record_pushes, sum_depths, update_depth}

record_pushes_same : (d : ℕ → ℕ) (n : ℕ) (l : List ℕ) → record_pushes d d n l ≡ l
unfolding record_pushes
record_pushes_same d zero l = refl
record_pushes_same d (suc n) l =
    let none : d n - d n ≡ 0 = omega arith in
    ap₂ ◌++◌ (record_pushes_same d n l) (ap (λ k. replicate k n) none) ∙ append-nil l

abbrev recorded : Mpsc → (ℕ → ℕ) → Mpsc
recorded c d = record c { depths = d; pushes = record_pushes c.depths d c.producers c.pushes }

recorded_again :
    (c : Mpsc) (d : ℕ → ℕ)
    → read_depths c.channels c.producers ≡ ok d
    → sum_depths d c.producers ≡ length (record_pushes c.depths d c.producers c.pushes)
    → update_depth (recorded c d) ≡ ok (recorded c d)
unfolding update_depth
recorded_again c d f t =
    ground (
      arith,
      f,
      t,
      record_pushes_same d c.producers (record_pushes c.depths d c.producers c.pushes),
    )

-- An update right after another finds nothing new.
pub update_twice : (c : Mpsc) {c' : Mpsc} → update_depth c ≡ ok c' → update_depth c' ≡ ok c'
unfolding update_depth
update_twice c {c'} e = elim (Result-cases (read_depths c.channels c.producers)) [
  | inr (x, f) ↦ absurd (ground (arith, e, f))
  | inl (d, f) ↦
      elim (ℕ_discrete (sum_depths d c.producers)
        (length (record_pushes c.depths d c.producers c.pushes))) [
          | no t ↦ absurd (ground (arith, e, f, t))
          | yes t ↦
              let same : recorded c d ≡ c' =
                ok_injective (recorded c d) c' (ground (arith, e, f, t)) in
              subst (λ x. update_depth x ≡ ok x) same (recorded_again c d f t)
        ]
]
