-- ===== src/Arrays/Pushes.antt =====
-- `push` of 08-exceptions/myvec-demo/myvec-1.cc and myvec-2.cc, and the copies of myvec-2.cc.
use cpp_graduate.Base.{
  ℕ, zero, suc, ◌+◌, ◌*◌, ◌≡◌, subst, ◌≤◌, ◌<◌, refl, ap, sym, ◌∙◌, List, [], ◌∷◌, ◌++◌, true,
  false, ◌&&◌, ltb, ◌==◌, if◌then◌else◌, length, take, drop, replicate, length-replicate, inl, inr,
  Bool-cases, arith,
}
use cpp_graduate.Vectors.{World}
use cpp_graduate.Vectors.Push.{Balance}
use cpp_graduate.Arrays.{
  Array, Ended, returned, thrown, undefined, Copied, filled, failed, outside, new_array,
  delete_array, copy_cells, store,
}
use cpp_graduate.Arrays.Cells.{
  IsCopied, copy_cells-IsCopied, contents, IsValid, IsStored, store-IsStored,
}
use cpp_graduate.Arrays.Naive
use cpp_graduate.Arrays.Safe

module _ {A : Type 0} where
  length-copied :
      (n : ℕ) (src dest : List A)
      → n ≤ length src
      → n ≤ length dest
      → length (take n src ++ drop n dest) ≡ length dest
  length-copied zero src dest h k = refl
  length-copied (suc n) [] dest h k = absurd (omega arith)
  length-copied (suc n) (s ∷ src) [] h k = absurd (omega arith)
  length-copied (suc n) (s ∷ src) (d ∷ dest) h k =
      ap suc (length-copied n src dest (omega arith) (omega arith))

  take-front :
      (n : ℕ) (src rest : List A) → n ≤ length src → take n (take n src ++ rest) ≡ take n src
  take-front zero src rest h = refl
  take-front (suc n) [] rest h = absurd (omega arith)
  take-front (suc n) (s ∷ src) rest h = ap (λ z. s ∷ z) (take-front n src rest (omega arith))

  -- A push either returns the vector with the element behind the others, or it throws and leaves the
  -- elements. So many objects and blocks are lost by an exception, and none else.
  abbrev pub IsPushed : World → Array A → A → ℕ → ℕ → Ended A → Type 0
  IsPushed w v t objects blocks (returned w' v') =
      IsValid v'
      × (contents v' ≡ contents v ++ t ∷ [])
      × Balance w w' (length v.arr) (length v'.arr) 1 1
  IsPushed w v t objects blocks (thrown w' v') =
      IsValid v'
      × (contents v' ≡ contents v)
      × Balance w w' (length v.arr) (length v'.arr + objects) 1 (1 + blocks)
  IsPushed w v t objects blocks undefined = ⊥

  room-IsPushed :
      (w : World) (v : Array A) (t : A)
      → IsValid v
      → (o : Ended A) → IsStored w v t o
      → IsPushed w v t 0 0 o
  room-IsPushed w v t valid (returned w' v') (a, c, n, b) = (a, c, (omega arith, omega arith))
  room-IsPushed w v t valid (thrown w' v') (e, c, b) = (
    subst IsValid (sym e) valid,
    ap contents e,
    (let n = ap (λ z. length z.arr) e in omega arith, omega arith),
  )
  room-IsPushed w v t valid undefined x = x

  abbrev wider : Array A → List A → Array A
  wider v cells = record { arr = cells; size = v.size * 2 + 1; used = v.used }

  -- After a copy of all cells to a wider array the push has room.
  wider-IsPushed :
      (w w1 : World) (v : Array A) (cells dest : List A) (t : A)
      → IsValid v
      → v.used ≡ v.size
      → length dest ≡ v.size * 2 + 1
      → IsCopied (new_array w (v.size * 2 + 1)) v.size v.arr dest (filled w1 cells)
      → IsPushed w v t 0 0 (store (delete_array w1 v.arr) (wider v cells) t)
  unfolding new_array delete_array
  wider-IsPushed w w1 v cells dest t valid e n (f, c, (b, d)) =
      after (store (delete_array w1 v.arr) (wider v cells) t)
        (store-IsStored (delete_array w1 v.arr) (wider v cells) t fits (omega arith))
    where
      size : length cells ≡ v.size * 2 + 1
      size =
          ap length f
          ∙ length-copied v.size v.arr dest (omega (arith, valid.cells)) (omega arith)
          ∙ n

      fits : IsValid (wider v cells)
      fits = record { cells = size; bounded = omega (arith, valid.bounded) }

      same : take v.used cells ≡ take v.used v.arr
      same =
          ap (take v.used) (f ∙ ap (λ z. take z v.arr ++ drop v.size dest) (sym e))
          ∙ take-front v.used v.arr (drop v.size dest) (omega (arith, valid.cells))

      after :
          (o : Ended A)
          → IsStored (delete_array w1 v.arr) (wider v cells) t o
          → IsPushed w v t 0 0 o
      after (returned w' v') (a, k, m, (x, y)) =
          (a, k ∙ ap (λ z. z ++ t ∷ []) same, (omega (arith, size), omega arith))
      after (thrown w' v') (q, k, (x, y)) = (
        subst IsValid (sym q) fits,
        ap contents q ∙ same,
        (let m = ap (λ z. length z.arr) q in omega (arith, size), omega arith),
      )
      after undefined x = x

  module _ (default : A) where
    -- `push` of myvec-2.cc, which catches the exceptions of its copies, has the strong guarantee: on a valid
    -- vector it returns the vector with the element behind the others, or it throws and the elements are those of
    -- before. The vector stays valid, nothing outside an array is touched, and no object and no block is lost.
    pub safe_push-IsPushed :
        (w : World) (v : Array A) (t : A) → IsValid v → IsPushed w v t 0 0 (Safe.push default w v t)
    unfolding Safe.push Safe.safe_copy Safe.regrown new_array delete_array
    safe_push-IsPushed w v t valid = elim (Bool-cases (v.used == v.size)) [
      | inl e ↦
          rw (e, if◌then◌else◌)
            (go (ground arith) (copy_cells (new_array w newsz) v.size v.arr dest) copies)
      | inr e ↦
          rw (e, if◌then◌else◌)
            (room-IsPushed w v t valid (store w v t)
              (store-IsStored w v t valid (ground (arith, valid.bounded))))
    ]
      where
        newsz : ℕ
        newsz = v.size * 2 + 1

        dest : List A
        dest = replicate newsz default

        copies :
            IsCopied
              (new_array w newsz)
              v.size
              v.arr
              dest
              (copy_cells (new_array w newsz) v.size v.arr dest)
        copies =
            copy_cells-IsCopied (new_array w newsz) v.size v.arr dest (omega (arith, valid.cells))
              (omega (arith, length-replicate newsz default))

        go :
            v.used ≡ v.size
            → (o : Copied A) → IsCopied (new_array w newsz) v.size v.arr dest o
            → IsPushed w v t 0 0 (Safe.regrown default v t (Safe.cleaned default o))
        go e (filled w1 cells) k =
            wider-IsPushed w w1 v cells dest t valid e (length-replicate newsz default) k
        go e (failed w1 cells) (n, c, (b, d)) =
            (valid, refl, (let m = length-replicate newsz default in omega arith, omega arith))
        go e outside k = k

    -- What an exception in the loop of the push of myvec-1.cc loses.
    abbrev pub lost : World → Array A → ℕ → ℕ
    lost w v n = if v.used == v.size && ltb w.control v.size then n else 0

    -- `push` of myvec-1.cc, which catches nothing, keeps the elements of a valid vector as well when it throws. But
    -- where it needs room and `control` is below the capacity, so that a copy to the new array throws, exactly that
    -- array is lost with all of its objects.
    pub naive_push-IsPushed :
        (w : World) (v : Array A) (t : A)
        → IsValid v
        → IsPushed w v t (lost w v (v.size * 2 + 1)) (lost w v 1) (Naive.push default w v t)
    unfolding Naive.push Naive.grown new_array
    naive_push-IsPushed w v t valid = elim (Bool-cases (v.used == v.size)) [
      | inl e ↦
          rw (e, if◌then◌else◌)
            (go (ground arith) (copy_cells (new_array w newsz) v.size v.arr dest) copies)
      | inr e ↦
          rw (e, if◌then◌else◌)
            (room-IsPushed w v t valid (store w v t)
              (store-IsStored w v t valid (ground (arith, valid.bounded))))
    ]
      where
        newsz : ℕ
        newsz = v.size * 2 + 1

        dest : List A
        dest = replicate newsz default

        copies :
            IsCopied
              (new_array w newsz)
              v.size
              v.arr
              dest
              (copy_cells (new_array w newsz) v.size v.arr dest)
        copies =
            copy_cells-IsCopied (new_array w newsz) v.size v.arr dest (omega (arith, valid.cells))
              (omega (arith, length-replicate newsz default))

        go :
            v.used ≡ v.size
            → (o : Copied A) → IsCopied (new_array w newsz) v.size v.arr dest o
            → IsPushed w v t
                (if ltb w.control v.size then newsz else 0)
                (if ltb w.control v.size then 1 else 0)
                (Naive.grown default v t o)
        go e (filled w1 cells) k =
            let enough : ltb w.control v.size ≡ false = (let c = k.1 in ground arith) in
            rw (enough, if◌then◌else◌)
              (wider-IsPushed w w1 v cells dest t valid e (length-replicate newsz default) k)
        go e (failed w1 cells) (n, c, (b, d)) =
            let few : ltb w.control v.size ≡ true = ground arith in
            rw (few, if◌then◌else◌) (valid, refl, (omega arith, omega arith))
        go e outside k = k

    -- The copy constructor of myvec-2.cc allocates as many cells as there are elements, but takes over the capacity of the
    -- other vector. When a valid vector has room left, and no copy throws, the next push to its copy writes behind
    -- the end of the array.
    pub push-copy_overflow :
        (w : World) (rhs : Array A) (t : A)
        → IsValid rhs
        → rhs.used < rhs.size
        → rhs.used ≤ w.control
        → (w' : World) × (v : Array A) × (Safe.copy default w rhs ≡ returned w' v)
          × (contents v ≡ contents rhs)
          × (Safe.push default w' v t ≡ undefined)
    unfolding Safe.copy Safe.push Safe.safe_copy Safe.constructed Safe.cleaned new_array store
    push-copy_overflow w rhs t valid lt enough =
        go (copy_cells (new_array w rhs.used) rhs.used rhs.arr dest) refl (
          copy_cells-IsCopied (new_array w rhs.used) rhs.used rhs.arr dest
            (omega (arith, valid.cells)) (omega (arith, length-replicate rhs.used default)))
      where
        dest : List A
        dest = replicate rhs.used default

        go :
            (o : Copied A)
            → copy_cells (new_array w rhs.used) rhs.used rhs.arr dest ≡ o
            → IsCopied (new_array w rhs.used) rhs.used rhs.arr dest o
            → (w' : World) × (v : Array A) × (Safe.copy default w rhs ≡ returned w' v)
              × (contents v ≡ contents rhs)
              × (Safe.push default w' v t ≡ undefined)
        go (filled w' cells) e (f, c, b) =
            let n : length cells ≡ rhs.used =
              ap length f
              ∙ length-copied rhs.used rhs.arr dest (omega (arith, valid.cells))
                  (omega (arith, length-replicate rhs.used default))
              ∙ length-replicate rhs.used default in
            let room : (rhs.used == rhs.size) ≡ false = ground arith in
            let full : ltb rhs.used (length cells) ≡ false = ground arith in
            (
              w',
              record { arr = cells; size = rhs.size; used = rhs.used },
              rw e refl,
              ap (take rhs.used) f
                  ∙ take-front rhs.used rhs.arr (drop rhs.used dest) (omega (arith, valid.cells)),
              rw (room, if◌then◌else◌, full) refl,
            )
        go (failed w' cells) e (f, c, b) = absurd (omega arith)
        go outside e x = absurd x
