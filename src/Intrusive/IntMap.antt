-- ===== src/Intrusive/IntMap.antt =====
-- 01-basics/lru-in-c-datastructs/src/int_map.c at the level of its pointers. The memory has a pointer at
-- each address: the buckets stand at consecutive addresses, and the address of an entry is that of its
-- `next`. A key is an `int64_t` as its bit pattern.
pub mod Chain
pub mod Laws
pub mod Init
pub mod Insert
pub mod Remove
pub mod Destroy
pub mod Tests
use Prim.Native.Nat.{bit_xor}
use cpp_graduate.Base.{
  ℕ, zero, suc, ◌+◌, ◌*◌, ◌-◌, ◌/◌, ◌%◌, ◌^◌, Bool, true, false, ◌||◌, ◌&&◌, Option, none, some,
  leb, ltb, ◌==◌, if◌then◌else◌,
}

-- The memory, with the other fields of the entries that the table reads or writes.
pub record Store : Type 0 where
  pub cell : ℕ → Option ℕ
  pub key : ℕ → ℕ
  pub prev_next : ℕ → Option ℕ

-- `buckets` is the address of the first one.
pub record IntMap : Type 0 where
  pub buckets : ℕ
  pub bucket_count : ℕ

-- `*p = q` of pointers, and `e->prev_next = q`
abbrev pub write : Store → ℕ → Option ℕ → Store
write t p q = record t { cell = λ a. if a == p then q else t.cell a }

abbrev pub set_prev_next : Store → ℕ → Option ℕ → Store
set_prev_next t e q = record t { prev_next = λ a. if a == e then q else t.prev_next a }

-- `e->prev_next = q` where `e` is not null
abbrev pub set_prev_next_of : Store → Option ℕ → Option ℕ → Store
set_prev_next_of t none q = t
set_prev_next_of t (some e) q = set_prev_next t e q

-- `int_map_init`, with the block that `calloc` gives: the buckets point at nothing.
unfoldable pub int_map_init : Store → ℕ → Option ℕ → Bool × IntMap × Store
int_map_init t bucket_count block =
    let empty : IntMap = record { buckets = 0; bucket_count = 0 } in
    let made : Bool × IntMap × Store = elim block [
      | none ↦ (false, empty, t)
      | some base ↦ (
        true,
        record { buckets = base; bucket_count = bucket_count },
        record t {
          cell = λ a. if leb base a && ltb a (base + bucket_count) then none else t.cell a;
        },
      )
    ] in
    if bucket_count == 0 || ltb ((2 ^ 64 - 1) / 8) bucket_count then (false, empty, t) else made

-- The multiplications are those of `uint64_t`.
unfoldable pub bucket_for : ℕ → ℕ → ℕ
bucket_for bucket_count key =
    let h1 = bit_xor key (key / 2 ^ 30) in
    let h2 = h1 * 0xbf58476d1ce4e5b9 % 2 ^ 64 in
    let h3 = bit_xor h2 (h2 / 2 ^ 27) in
    let h4 = h3 * 0x94d049bb133111eb % 2 ^ 64 in bit_xor h4 (h4 / 2 ^ 31) % bucket_count

abbrev pub bucket_of : IntMap → ℕ → ℕ
bucket_of m key = m.buckets + bucket_for m.bucket_count key

-- The loop of `int_map_find` from a pointer on, on fuel.
unfoldable pub scan : ℕ → Store → Option ℕ → ℕ → Option (Option ℕ)
scan zero t p key = none
scan (suc fuel) t none key = some none
scan (suc fuel) t (some entry) key =
    let rest = scan fuel t (t.cell entry) key in
    if t.key entry == key then some (some entry) else rest

unfoldable pub int_map_find : ℕ → Store → IntMap → ℕ → Option (Option ℕ)
unfolding scan bucket_for
int_map_find fuel t m key =
    let found = scan fuel t (t.cell (bucket_of m key)) key in
    if m.bucket_count == 0 then some none else found

-- The end of `int_map_insert`.
unfoldable pub link : Store → ℕ → ℕ → Store
link t head entry =
    let t1 = write t entry (t.cell head) in
    let t2 = set_prev_next t1 entry (some head) in
    let t3 = set_prev_next_of t2 (t2.cell head) (some entry) in write t3 head (some entry)

-- `none` is that the fuel ran out.
unfoldable pub int_map_insert : ℕ → Store → IntMap → ℕ → Option (Bool × Store)
unfolding link int_map_find bucket_for
int_map_insert fuel t m entry =
    let unlinked : Option (Bool × Store) = elim (int_map_find fuel t m (t.key entry)) [
      | none ↦ none
      | some (some e) ↦ some (false, t)
      | some none ↦ some (true, link t (bucket_of m (t.key entry)) entry)
    ] in
    let positive : Option (Bool × Store) = elim (t.prev_next entry) [
      | some slot ↦ some (false, t)
      | none ↦ unlinked
    ] in
    if m.bucket_count == 0 then some (false, t) else positive

-- `int_map_remove` of an entry that is linked at `slot`.
unfoldable pub unlink : Store → ℕ → ℕ → Store
unlink t slot entry =
    let t1 = write t slot (t.cell entry) in
    let t2 = set_prev_next_of t1 (t1.cell entry) (t1.prev_next entry) in
    set_prev_next (write t2 entry none) entry none

-- `none` is the dereference of a null pointer.
unfoldable pub int_map_remove : Store → ℕ → Option Store
unfolding unlink
int_map_remove t entry = elim (t.prev_next entry) [
  | none ↦ none
  | some slot ↦ some (unlink t slot entry)
]

-- The inner loop of `int_map_destroy`, on fuel, and the outer one over the buckets that are left.
unfoldable pub drain : ℕ → Store → ℕ → Option Store
unfolding int_map_remove
drain zero t bucket = none
drain (suc fuel) t bucket = elim (t.cell bucket) [
  | none ↦ some t
  | some entry ↦ elim (int_map_remove t entry) [ none ↦ none | some u ↦ drain fuel u bucket ]
]

unfoldable pub drain_all : ℕ → Store → ℕ → ℕ → Option Store
unfolding drain
drain_all fuel t bucket zero = some t
drain_all fuel t bucket (suc left) = elim (drain fuel t bucket) [
  | none ↦ none
  | some u ↦ drain_all fuel u (suc bucket) left
]

unfoldable pub int_map_destroy : ℕ → Store → IntMap → Option (IntMap × Store)
unfolding drain_all
int_map_destroy fuel t m = elim (drain_all fuel t m.buckets m.bucket_count) [
  | none ↦ none
  | some u ↦ some (record { buckets = 0; bucket_count = 0 }, u)
]
