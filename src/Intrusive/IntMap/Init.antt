-- ===== src/Intrusive/IntMap/Init.antt =====
-- `int_map_init` of 01-basics/lru-in-c-datastructs/src/int_map.c.
use cpp_graduate.Base.{
  ℕ, ◌+◌, ◌-◌, ◌/◌, ◌^◌, ◌<◌, ◌≤◌, ◌≡◌, refl, [], true, false, ◌&&◌, some, ◌==◌, leb, ltb,
  if◌then◌else◌, arith,
}
use cpp_graduate.Intrusive.IntMap.{Store, int_map_init}
use cpp_graduate.Intrusive.IntMap.Laws.{IsTable}

-- With a block for a number of buckets that is not zero and whose size fits, the table is empty.
pub int_map_init_lem :
    (t : Store) (n base : ℕ)
    → 0 < n
    → n ≤ (2 ^ 64 - 1) / 8
    → ((int_map_init t n (some base)).0 ≡ true)
      × IsTable (int_map_init t n (some base)).2 (int_map_init t n (some base)).1 (λ _. [])
unfolding int_map_init
int_map_init_lem t n base lt le =
    let z : (n == 0) ≡ false = ground arith in
    let w : ltb ((2 ^ 64 - 1) / 8) n ≡ false = ground arith in
    rw (z, w, if◌then◌else◌)
      (
        refl,
        record {
          positive = lt;
          chained = λ i h.
              (let inside : (leb base (base + i) && ltb (base + i) (base + n)) ≡ true =
                  ground arith in
                rw (inside, if◌then◌else◌) refl);
          distinct = λ i. tt;
          unique = λ i. tt;
          placed = λ i e h. absurd cc;
          outside = λ i e h. absurd cc;
        },
      )
