-- ===== src/Pcl/Loops.antt =====
-- The loop of `While::calc` (15-llvm/naive-pcl/Node.hpp): an invariant and a measure give its end.
use cpp_graduate.Base.{
  ℕ, zero, suc, ◌+◌, ◌<◌, ◌≡◌, refl, ◌∙◌, Bool, true, false, arith, Bool-cases, inl, inr,
}
use cpp_graduate.Base.Int.{ℤ, pos}
use cpp_graduate.Pcl.{
  INode, while_loop, State, Result, ok, out_of_fuel, ◌>>=◌, truthy, calc_node, calc,
}
use cpp_graduate.Pcl.Fuel.{calc_mono}

module _ (order : Bool) (f : ℕ) (c b : INode) (P Q : State → Type 0) (measure : State → ℕ) where
  -- One round from a state of the invariant: the condition ends; if it is false the loop is left, if
  -- not the body ends, keeps the invariant, and the measure falls.
  pub record Round (s : State) : Type 0 where
    pub test : ℤ
    pub tested : State
    pub condition : calc order f c s ≡ ok test tested
    pub leaves : truthy test ≡ false → Q tested
    pub repeats :
        truthy test ≡ true
        → (v : ℤ) × (t : State) × (calc order f b tested ≡ ok v t) × P t × (measure t < measure s)

  ok≢out : {v : ℤ} {t : State} (r : Result) → r ≡ ok v t → ¬ (r ≡ out_of_fuel)
  ok≢out r e o = cc

  loop_done :
      (k : ℕ) (s t : State) (v : ℤ)
      → calc order k c s ≡ ok v t
      → truthy v ≡ false
      → calc order (suc k) (while_loop c b) s ≡ ok (pos 0) t
  unfolding calc calc_node
  loop_done k s t v e h = rw (e, h, ◌>>=◌) refl

  loop_round :
      (k : ℕ) (s t u : State) (v w : ℤ)
      → calc order k c s ≡ ok v t
      → truthy v ≡ true
      → calc order k b t ≡ ok w u
      → calc order (suc k) (while_loop c b) s ≡ calc order k (while_loop c b) u
  unfolding calc calc_node
  loop_round k s t u v w e h g = rw (e, h, ◌>>=◌, g) refl

  -- Where in each round from a state of the invariant `P` the condition ends and either is false, with
  -- `Q` of the state, or is true, the body ends, keeps `P` and lowers the measure, there the loop returns
  -- 0 from every state of `P`, in a state of `Q`, with a fuel above the measure plus that of a round.
  pub while_loop_ends :
      ((s : State) → P s → Round s)
      → (m : ℕ) (s : State) → P s
      → measure s < m
      → (t : State) × (calc order (m + f) (while_loop c b) s ≡ ok (pos 0) t) × Q t
  while_loop_ends round zero s p lt = absurd (omega arith)
  while_loop_ends round (suc m) s p lt =
      let r = round s p in
      let more : suc m + f ≡ suc (m + f) = omega arith in
      let cond = calc_mono order m f c s (ok≢out (calc order f c s) r.condition) ∙ r.condition in
      elim (Bool-cases (truthy r.test)) [
        | inl go ↦
            let (v, t, e, p', less) = r.repeats go in
            let body = calc_mono order m f b r.tested (ok≢out (calc order f b r.tested) e) ∙ e in
            let (u, done, q) = while_loop_ends round m t p' (omega arith) in
            (u, rw more (loop_round (m + f) s r.tested t r.test v cond go body ∙ done), q)
        | inr stop ↦
            (r.tested, rw more (loop_done (m + f) s r.tested r.test cond stop), r.leaves stop)
      ]
