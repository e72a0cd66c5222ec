-- ===== src/Vectors.antt =====
-- 08-exceptions/myvec-demo: the vector of myvec-3.cc over elements whose copies may throw, as the copy
-- constructor of controllable.hh does. A vector is the list of its constructed elements, of length
-- `used_`, with its capacity; the world counts what was built, destroyed, allocated and deleted.
pub mod Push
pub mod Copy
pub mod Tests
use cpp_graduate.Base.{
  ℕ, zero, suc, ◌+◌, ◌*◌, List, [], ◌∷◌, ◌++◌, Bool, true, false, ◌==◌, if◌then◌else◌, length,
}

-- `control` is the static counter of `Controllable`: the copies that are left before one throws.
pub record World : Type 0 where
  pub control : ℕ
  pub built : ℕ
  pub destroyed : ℕ
  pub allocated : ℕ
  pub deleted : ℕ

pub data Construct : Type 0 where
  copied : World → Construct
  refused : World → Construct

-- `Controllable(const Controllable &)`, behind `construct`
unfoldable pub construct : World → Construct
construct w = elim w.control [
  | zero ↦ refused (record w { control = 5 })
  | suc c ↦ copied (record w { control = c; built = suc w.built })
]

-- `MyVectorBuf`
pub record Vector (A : Type 0) : Type 0 where
  pub elems : List A
  pub size : ℕ

-- A call with the vector that it leaves behind.
pub data Outcome (A : Type 0) : Type 0 where
  returned : World → Vector A → Outcome A
  thrown : World → Vector A → Outcome A
  out_of_fuel : Outcome A

-- The memory blocks of a capacity: none for `nullptr`.
abbrev pub blocks : ℕ → ℕ
blocks zero = 0
blocks (suc n) = 1

-- `MyVectorBuf(size_t sz)`
unfoldable pub allocate : World → ℕ → World
allocate w sz = record w { allocated = w.allocated + blocks sz }

module _ {A : Type 0} where
  -- `~MyVectorBuf`
  unfoldable pub release : World → Vector A → World
  release w v = record w {
    destroyed = w.destroyed + length v.elems;
    deleted = w.deleted + blocks v.size;
  }

  -- The end of `push`, where there is room.
  unfoldable pub put : World → Vector A → A → Outcome A
  unfolding construct
  put w v t = elim (construct w) [
    | copied w' ↦ returned w' (record v { elems = v.elems ++ t ∷ [] })
    | refused w' ↦ thrown w' v
  ]

  -- The loop of `push` over the elements that `tmp` does not hold yet, by the `push` of `tmp`.
  unfoldable pub fill : (World → Vector A → A → Outcome A) → World → Vector A → List A → Outcome A
  fill push w tmp [] = returned w tmp
  fill push w tmp (x ∷ rest) = elim (push w tmp x) [
    | returned w' tmp' ↦ fill push w' tmp' rest
    | thrown w' tmp' ↦ thrown w' tmp'
    | out_of_fuel ↦ out_of_fuel
  ]

  -- The branch of `push` without room. `tmp` is destroyed at the end: after the swap it is the old
  -- vector, after an exception it holds what has been copied.
  abbrev pub finish : Vector A → Outcome A → Outcome A
  finish v (returned w tmp) = returned (release w v) tmp
  finish v (thrown w tmp) = thrown (release w tmp) v
  finish v out_of_fuel = out_of_fuel

  unfoldable pub grow : (World → Vector A → A → Outcome A) → World → Vector A → A → Outcome A
  unfolding fill release allocate
  grow push w v t =
      let filled =
        fill push (allocate w (v.size * 2 + 1)) (record { elems = []; size = v.size * 2 + 1 })
          v.elems in
      finish v (elim filled [
        | returned w' tmp ↦ push w' tmp t
        | thrown w' tmp ↦ thrown w' tmp
        | out_of_fuel ↦ out_of_fuel
      ])

  -- `push`, whose recursion on `tmp` takes fuel.
  unfoldable pub push : ℕ → World → Vector A → A → Outcome A
  unfolding grow put
  push zero w v t = out_of_fuel
  push (suc fuel) w v t = if length v.elems == v.size then grow (push fuel) w v t else put w v t

  -- The loop of the copy constructor, over the elements of `rhs`.
  unfoldable pub copy_elems : World → Vector A → Outcome A
  unfolding fill put allocate
  copy_elems w rhs =
      fill put (allocate w (length rhs.elems)) (record { elems = []; size = length rhs.elems })
        rhs.elems

  -- `operator=(const MyVector &rhs)`
  unfoldable pub assign : World → Vector A → Vector A → Outcome A
  unfolding copy_elems release
  assign w v rhs = finish v (copy_elems w rhs)

  -- All elements but the last.
  abbrev pub but_last : A → List A → List A
  but_last x [] = []
  but_last x (y ∷ rest) = x ∷ but_last y rest

  -- `pop`; the exception is that of an empty vector.
  unfoldable pub pop : World → Vector A → Outcome A
  pop w v = elim v.elems [
    | [] ↦ thrown w v
    | x ∷ rest ↦
        returned (record w { destroyed = suc w.destroyed }) (record v { elems = but_last x rest })
  ]
