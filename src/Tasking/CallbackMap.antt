-- ===== src/Tasking/CallbackMap.antt =====
-- include/hicr/frontends/tasking/callbackMap.hpp. The map is a function from events to the
-- callback that is set; a callback is named by a value of `F`, and `trigger` tells which is called.
use mathlib.Core.Logic.{ite}
use hi_cr.Prelude.{arith, ◌⊎◌, inl, inr, Bool, true, false, Option, none, some, ◌≡◌, List, [], ◌∷◌}

abbrev pub CallbackMap : Type 0 → Type 0 → Type 0
CallbackMap E F = E → Option F

module _ {E F : Type 0} where
  unfoldable pub clear : CallbackMap E F → CallbackMap E F
  clear m e = none

  unfoldable pub is_callback_set : CallbackMap E F → E → Bool
  is_callback_set m e = elim (m e) [ none ↦ false | some f ↦ true ]

  -- The callbacks that a trigger calls: one, or none.
  unfoldable pub trigger : CallbackMap E F → E → List F
  trigger m e = elim (m e) [ none ↦ [] | some f ↦ f ∷ [] ]

module _ {E F : Type 0} (same : Discrete E) where
  unfoldable pub remove_callback : CallbackMap E F → E → CallbackMap E F
  remove_callback m e k = ite (same e k) none (m k)

  unfoldable pub set_callback : CallbackMap E F → E → F → CallbackMap E F
  set_callback m e f k = ite (same e k) (some f) (m k)

  -- A trigger calls the callback set last for its event; setting or removing the callback of an
  -- event changes no other event, and a removed one is not called.
  pub trigger_lem :
      (m : CallbackMap E F) (e k : E) (f : F)
      → (trigger (set_callback m e f) e ≡ f ∷ [])
        × (trigger (remove_callback m e) e ≡ [])
        × ((e ≡ k)
            ⊎ ((trigger (set_callback m e f) k ≡ trigger m k)
                × (trigger (remove_callback m e) k ≡ trigger m k)))
  unfolding trigger set_callback remove_callback
  trigger_lem m e k f = (
    ground arith,
    ground arith,
    elim (same e k) [ yes p ↦ inl p | no p ↦ inr (ground arith, ground arith) ],
  )
