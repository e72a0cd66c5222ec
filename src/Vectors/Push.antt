-- ===== src/Vectors/Push.antt =====
-- The guarantees of `push` of the vector of 08-exceptions/myvec-demo/myvec-3.cc.
use cpp_graduate.Base.{
  ℕ, zero, suc, ◌+◌, ◌*◌, ◌<◌, ◌≤◌, ◌≡◌, refl, ap, sym, ◌∙◌, inl, inr, List, [], ◌∷◌, ◌++◌, false,
  ◌==◌, if◌then◌else◌, length, length-append, Bool-cases, arith,
}
use mathlib.Core.List.{append-nil, append_assoc}
use cpp_graduate.Vectors.{
  World, Construct, copied, refused, construct, Vector, Outcome, returned, thrown, out_of_fuel,
  blocks, allocate, release, put, fill, finish, grow, push,
}

-- From the one world to the other, the live objects went up from `m` to `n`, and the live blocks from
-- `b` to `c`.
abbrev pub Balance : World → World → ℕ → ℕ → ℕ → ℕ → Type 0
Balance w w' m n b c =
    (w'.built + w.destroyed + m ≡ w.built + w'.destroyed + n)
    × (w'.allocated + w.deleted + b ≡ w.allocated + w'.deleted + c)

apart_lt : (a b : ℕ) → a < b → (a == b) ≡ false
apart_lt a b h = ground arith

smaller : (a b : ℕ) → a ≤ b → (a == b) ≡ false → a < b
smaller a b h e = ground arith

module _ {A : Type 0} where
  -- The copies that a push makes.
  abbrev pub copies : Vector A → ℕ
  copies v = if length v.elems == v.size then length v.elems + 1 else 1

  -- A push either returns the vector with the element behind the others, where all copies succeeded, or
  -- it throws where one did not, and leaves the vector as it was. Neither loses an object or a block.
  abbrev pub IsPush : World → Vector A → A → ℕ → Outcome A → Type 0
  IsPush w v t n (returned w' v') =
      (v'.elems ≡ v.elems ++ t ∷ [])
      × (length v'.elems ≤ v'.size)
      × (w.control ≡ w'.control + n)
      × Balance w w' (length v.elems) (length v'.elems) (blocks v.size) (blocks v'.size)
  IsPush w v t n (thrown w' v') = (v' ≡ v) × (w.control < n) × Balance w w' 0 0 0 0
  IsPush w v t n out_of_fuel = ⊥

  -- The same of the vector `tmp` that a loop fills, which may be left in the middle.
  unfoldable pub IsFill : World → Vector A → List A → Outcome A → Type 0
  IsFill w tmp xs (returned w' tmp') =
      (tmp'.elems ≡ tmp.elems ++ xs)
      × (tmp'.size ≡ tmp.size)
      × (w.control ≡ w'.control + length xs)
      × Balance w w' (length tmp.elems) (length tmp'.elems) 0 0
  IsFill w tmp xs (thrown w' tmp') =
      (tmp'.size ≡ tmp.size)
      × (w.control < length xs)
      × Balance w w' (length tmp.elems) (length tmp'.elems) 0 0
  IsFill w tmp xs out_of_fuel = ⊥

  pub put-IsFill : (w : World) (tmp : Vector A) (x : A) → IsFill w tmp (x ∷ []) (put w tmp x)
  unfolding put construct IsFill
  put-IsFill w tmp x = go w.control refl
    where
      go :
          (c : ℕ)
          → w.control ≡ c
          → IsFill w tmp
              (x ∷ [])
              (elim (elim c as (λ _. Construct) [
                | zero ↦ refused (record w { control = 5 })
                | suc k ↦ copied (record w { control = k; built = suc w.built })
              ])
                as (λ _. Outcome A) [
                  | copied w' ↦ returned w' (record tmp { elems = tmp.elems ++ x ∷ [] })
                  | refused w' ↦ thrown w' tmp
                ])
      go zero e = (refl, omega arith, (refl, refl))
      go (suc k) e = (
        refl,
        refl,
        omega arith,
        ((let n = length-append tmp.elems (x ∷ []) in omega arith), refl),
      )

  push_room :
      (f : ℕ) (w : World) (v : Vector A) (t : A)
      → (length v.elems == v.size) ≡ false
      → push (suc f) w v t ≡ put w v t
  unfolding push
  push_room f w v t e = rw (e, if◌then◌else◌) refl

  -- One element, and then the rest.
  IsFill-step :
      (w w' : World) (tmp tmp' : Vector A) (x : A) (rest : List A) (o : Outcome A)
      → IsFill w tmp (x ∷ []) (returned w' tmp')
      → IsFill w' tmp' rest o
      → IsFill w tmp (x ∷ rest) o
  unfolding IsFill
  IsFill-step w w' tmp tmp' x rest (returned u v) (e, s, c, (b, d)) (e', s', c', (b', d')) = (
    e' ∙ ap (λ z. z ++ rest) e ∙ append_assoc tmp.elems (x ∷ []) rest,
    s' ∙ s,
    omega arith,
    (omega arith, omega arith),
  )
  IsFill-step w w' tmp tmp' x rest (thrown u v) (e, s, c, (b, d)) (s', c', (b', d')) =
      (s' ∙ s, omega arith, (omega arith, omega arith))
  IsFill-step w w' tmp tmp' x rest out_of_fuel h k = k

  push-IsFill :
      (f : ℕ) (w : World) (tmp : Vector A) (x : A)
      → length tmp.elems < tmp.size
      → IsFill w tmp (x ∷ []) (push (suc f) w tmp x)
  push-IsFill f w tmp x lt =
      rw (push_room f w tmp x (apart_lt (length tmp.elems) tmp.size lt)) (put-IsFill w tmp x)

  pub fill-IsFill :
      (p : World → Vector A → A → Outcome A)
      → ((w : World) (tmp : Vector A) (x : A)
          → length tmp.elems < tmp.size
          → IsFill w tmp (x ∷ []) (p w tmp x))
      → (w : World) (tmp : Vector A) (xs : List A) → length tmp.elems + length xs ≤ tmp.size
      → IsFill w tmp xs (fill p w tmp xs)
  unfolding fill IsFill
  fill-IsFill p one w tmp [] h = (sym (append-nil tmp.elems), refl, omega arith, (refl, refl))
  fill-IsFill p one w tmp (x ∷ rest) h =
      go (λ w' tmp'. fill-IsFill p one w' tmp' rest) (p w tmp x) (one w tmp x (omega arith))
    where
      go :
          ((w' : World) (tmp' : Vector A)
            → length tmp'.elems + length rest ≤ tmp'.size
            → IsFill w' tmp' rest (fill p w' tmp' rest))
          → (o : Outcome A) → IsFill w tmp (x ∷ []) o
          → IsFill w tmp (x ∷ rest) (elim o as (λ _. Outcome A) [
            | returned w' tmp' ↦ fill p w' tmp' rest
            | thrown w' tmp' ↦ thrown w' tmp'
            | out_of_fuel ↦ out_of_fuel
          ])
      go ih (returned w' tmp') k =
          let n = length-append tmp.elems (x ∷ []) in
          let m = ap length k.0 in
          let s = k.1 in IsFill-step w w' tmp tmp' x rest _ k (ih w' tmp' (omega arith))
      go ih (thrown w' tmp') (s, c, b) = (s, omega arith, b)
      go ih out_of_fuel k = k

  -- What holds of `tmp` before it is destroyed, in the branch without room.
  Grown : World → Vector A → A → Outcome A → Type 0
  Grown w v t (returned u r) =
      (r.elems ≡ v.elems ++ t ∷ [])
      × (length r.elems ≤ r.size)
      × (w.control ≡ u.control + (length v.elems + 1))
      × Balance w u 0 (length r.elems) 0 (blocks r.size)
  Grown w v t (thrown u r) =
      (w.control < length v.elems + 1) × Balance w u 0 (length r.elems) 0 (blocks r.size)
  Grown w v t out_of_fuel = ⊥

  finish-IsPush :
      (w : World) (v : Vector A) (t : A) (o : Outcome A)
      → Grown w v t o
      → IsPush w v t (length v.elems + 1) (finish v o)
  unfolding Grown release
  finish-IsPush w v t (returned u r) (e, l, c, (b, d)) = (e, l, c, (omega arith, omega arith))
  finish-IsPush w v t (thrown u r) (c, (b, d)) = (refl, c, (omega arith, omega arith))
  finish-IsPush w v t out_of_fuel h = h

  grow-IsPush :
      (f : ℕ) (w : World) (v : Vector A) (t : A)
      → length v.elems ≤ v.size
      → IsPush w v t (length v.elems + 1) (grow (push (suc f)) w v t)
  unfolding grow allocate IsFill Grown
  grow-IsPush f w v t h = finish-IsPush w v t _ (
      after (fill (push (suc f)) start room v.elems)
        (fill-IsFill (push (suc f)) (push-IsFill f) start room v.elems (omega arith)))
    where
      size : ℕ
      size = v.size * 2 + 1

      start : World
      start = allocate w size

      room : Vector A
      room = record { elems = []; size = size }

      last :
          (u : World) (r : Vector A)
          → IsFill start room v.elems (returned u r)
          → (o : Outcome A) → IsFill u r (t ∷ []) o
          → Grown w v t o
      last u r (e, s, c, (b, d)) (returned u' r') (e', s', c', (b', d')) =
          let all = e' ∙ ap (λ z. z ++ t ∷ []) e in
          let n = ap length all in
          let n' = length-append v.elems (t ∷ []) in
          let k = ap blocks (s' ∙ s) in
          (all, (let q = s' ∙ s in omega arith), omega arith, (omega arith, omega arith))
      last u r (e, s, c, (b, d)) (thrown u' r') (s', c', (b', d')) =
          let k = ap blocks (s' ∙ s) in (omega arith, (omega arith, omega arith))
      last u r k out_of_fuel m = m

      after :
          (o : Outcome A)
          → IsFill start room v.elems o
          → Grown w v t (elim o as (λ _. Outcome A) [
            | returned u r ↦ push (suc f) u r t
            | thrown u r ↦ thrown u r
            | out_of_fuel ↦ out_of_fuel
          ])
      after (returned u r) k =
          let n = ap length k.0 in
          let s = k.1 in
          last u r k _ (
            rw (push_room f u r t (apart_lt (length r.elems) r.size (omega arith)))
              (put-IsFill u r t))
      after (thrown u r) (s, c, (b, d)) =
          let k = ap blocks s in (omega arith, (omega arith, omega arith))
      after out_of_fuel k = k

  put-IsPush :
      (w : World) (v : Vector A) (t : A) → length v.elems < v.size → IsPush w v t 1 (put w v t)
  unfolding put construct
  put-IsPush w v t h = go w.control refl
    where
      go :
          (c : ℕ)
          → w.control ≡ c
          → IsPush w v t 1
              (elim (elim c as (λ _. Construct) [
                | zero ↦ refused (record w { control = 5 })
                | suc k ↦ copied (record w { control = k; built = suc w.built })
              ])
                as (λ _. Outcome A) [
                  | copied w' ↦ returned w' (record v { elems = v.elems ++ t ∷ [] })
                  | refused w' ↦ thrown w' v
                ])
      go zero e = (refl, omega arith, (refl, refl))
      go (suc k) e =
          let n = length-append v.elems (t ∷ []) in
          (refl, omega arith, omega arith, (omega arith, refl))

  -- Where the size is at most the capacity, `push` behaves as follows: it makes one copy if there is
  -- room, and one of each element more if not. If `control` allows them it returns, the vector has the
  -- element behind the others and the size is at most the capacity; if not it throws, and the vector is
  -- as it was. Either way the objects and the blocks that are live are those of the vector.
  pub push-IsPush :
      (f : ℕ) (w : World) (v : Vector A) (t : A)
      → length v.elems ≤ v.size
      → IsPush w v t (copies v) (push (suc (suc f)) w v t)
  unfolding push IsFill
  push-IsPush f w v t h = elim (Bool-cases (length v.elems == v.size)) [
    | inl e ↦ rw (e, if◌then◌else◌) (grow-IsPush f w v t h)
    | inr e ↦ rw (e, if◌then◌else◌) (put-IsPush w v t (smaller (length v.elems) v.size h e))
  ]
