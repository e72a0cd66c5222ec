-- ===== src/Perms/Create/Rounds.antt =====
-- The outer loop of `create_loops`: for the table of a permutation it ends, and writes the cycles of the
-- permutation.
use native.Mathlib.Decide.{ℕ_discrete, dec_lt}
use cpp_graduate.Base.{
  ℕ, zero, suc, ◌+◌, ◌-◌, ◌≤◌, ◌<◌, ◌≡◌, refl, sym, ◌∙◌, subst, inl, inr, List, [], ◌∷◌, ◌++◌, Bool,
  true, false, ◌||◌, arith, length, elem, All, Bool-cases, some, drop, replicate, length-replicate,
  get_or-replicate,
}
use cpp_graduate.Perms.Idom.{InDomain, at}
use cpp_graduate.Perms.Loops.{PermLoop, front, contains, apply, make_loop}
use cpp_graduate.Perms.Loops.Lists.{All-elem}
use cpp_graduate.Perms.Loops.Apply.{apply-cyclic}
use cpp_graduate.Perms.Product.{
  apply_loops, covered, covered-nil, Apart, Disjoint, IsLoop, All-snoc, Disjoint-snoc, covered-All,
  apply_loops-append, covered-append, apply_absent, apply_loops_absent,
}
use cpp_graduate.Perms.Create.{is_marked, mark, find_false, create_from, create_loops}
use cpp_graduate.Perms.Create.Links.{Links-last, Links-image, next-Links}
use cpp_graduate.Perms.Create.Marks.{
  unseen-le, length-mark, is_marked-mark, found_range, found_below, found_unmarked,
}
use cpp_graduate.Perms.Create.Trace.{IsPermTable, IsStart, IsTrace, trace-IsTrace}

-- Loops of the domain that are the cycles of the permutation in the table: no two have a common
-- element, together they have all elements, and one after the other they permute as the table.
pub record IsDecomposed (start fin : ℕ) (table : List ℕ) (ls : List PermLoop) : Type 0 where
  pub loops : All (IsLoop start fin) ls
  pub disjoint : Disjoint ls
  pub covers : (v : ℕ) → InDomain start fin v → covered ls v ≡ true
  pub images : (v : ℕ) → InDomain start fin v → apply_loops ls v ≡ at start table v

make_loop_single : (t : ℕ) → make_loop (t ∷ []) ≡ record { loop = t ∷ [] }
unfolding make_loop
make_loop_single t = refl

elem_of_front : (t : ℕ) (l : List ℕ) → 0 < length l → front l ≡ t → elem t l ≡ true
elem_of_front t [] h e = absurd (omega arith)
elem_of_front t (x ∷ l) h e = ground arith

module _ (start fin : ℕ) (table : List ℕ) (bij : IsPermTable start fin table) where
  -- A finished cycle: it permutes as the table, and holds the preimages of its elements.
  module _ (old : ℕ → Bool) (t : ℕ) (p : PermLoop) (m : List Bool)
      (h : IsTrace start fin table old t t p m) where
    cycle_image : (v : ℕ) → contains p v ≡ true → apply p v ≡ at start table v
    cycle_image v i =
        apply-cyclic p v ∙ rw h.first (next-Links (at start table) t v p.loop h.links i)

    cycle_preimage :
        (v : ℕ) → InDomain start fin v → contains p (at start table v) ≡ true → contains p v ≡ true
    cycle_preimage v hv i =
        let same : (e : ℕ)
            → elem e p.loop ≡ true
            → at start table e ≡ at start table v
            → elem v p.loop ≡ true =
          λ e j q.
            subst (λ w. elem w p.loop ≡ true)
              (bij.injective e v (All-elem (InDomain start fin) e p.loop h.domain j) hv q) j in
        elim (Links-image (at start table) t (at start table v) p.loop h.links i) [
          | inl e ↦
              let (c, j, q) = Links-last (at start table) t p.loop h.canonical.nonempty h.links in
              same c j (q ∙ sym h.first ∙ e)
          | inr (c, j, q) ↦ same c j q
        ]

  -- The state of the outer loop at position `relt`.
  record IsRound (relt : ℕ) (m : List Bool) (out : List PermLoop) : Type 0 where
    size : length m ≡ fin - start + 1
    range : relt ≤ length m
    below : (v : ℕ) → InDomain start fin v → v < start + relt → is_marked start m v ≡ true
    unmarked : relt < length m → is_marked start m (start + relt) ≡ false
    closed :
        (v : ℕ)
        → InDomain start fin v
        → is_marked start m (at start table v) ≡ true
        → is_marked start m v ≡ true
    marks : (v : ℕ) → InDomain start fin v → is_marked start m v ≡ covered out v
    loops : All (IsLoop start fin) out
    disjoint : Disjoint out
    images :
        (v : ℕ) → InDomain start fin v → covered out v ≡ true → apply_loops out v ≡ at start table v

  module _ (relt : ℕ) (m : List Bool) (out : List PermLoop) (h : IsRound relt m out)
      (more : relt < length m) where
    started : start ≤ fin → IsStart start fin table (is_marked start m) (start + relt)
    started le = record {
      inside = (omega arith, omega (arith, h.size));
      unmarked = h.unmarked more;
      below = h.below;
      closed = h.closed;
    }

    first_IsTrace :
        start ≤ fin
        → IsTrace start fin table
            (is_marked start m)
            (start + relt)
            (at start table (start + relt))
            (make_loop ((start + relt) ∷ []))
            (mark start m (start + relt))
    first_IsTrace le =
        let t = start + relt in
        let inside : InDomain start fin t = (omega arith, omega (arith, h.size)) in
        rw (make_loop_single t) (record {
          size = length-mark start fin m t ∙ h.size;
          canonical = record {
            nonempty = omega arith;
            unique = (refl, tt);
            least = (omega arith, tt);
          };
          first = refl;
          domain = (inside, tt);
          marks = λ v hv. ground (arith, is_marked-mark start fin m t v inside hv h.size);
          fresh = λ v i. elim (ℕ_discrete t v) [
            | yes e ↦ subst (λ w. is_marked start m w ≡ false) e (h.unmarked more)
            | no n ↦ absurd (ground arith)
          ];
          links = (refl, tt);
        })

    -- The round after the cycle of its first unmarked element.
    next_IsRound :
        (p : PermLoop) (m' : List Bool)
        → IsTrace start fin table (is_marked start m) (start + relt) (start + relt) p m'
        → IsRound (find_false (drop (suc relt) m') (suc relt)) m' (out ++ p ∷ [])
    unfolding covered apply_loops
    next_IsRound p m' k =
        let old = is_marked start m in
        let t = start + relt in
        let range = found_range start fin m' relt k.size (omega (arith, k.size, h.size)) in
        let one : (v : ℕ) → covered (out ++ p ∷ []) v ≡ (covered out v || contains p v) =
          λ v. ground (arith, covered-append out (p ∷ []) v) in
        record {
          size = k.size;
          range = range.1;
          below = λ v hv lt. elim (dec_lt v t) [
            | yes low ↦ ground (arith, k.marks v hv, h.below v hv low)
            | no high ↦ elim (ℕ_discrete t v) [
              | yes e ↦
                  let i : contains p v ≡ true =
                    subst (λ w. contains p w ≡ true) e
                      (elem_of_front t p.loop k.canonical.nonempty k.first) in
                  ground (arith, k.marks v hv)
              | no ne ↦ found_below start fin m' relt k.size v (omega arith) lt
            ]
          ];
          unmarked = λ _. found_unmarked start fin m' relt k.size;
          closed = λ v hv i. ground (
            arith,
            k.marks v hv,
            k.marks (at start table v) (bij.maps v hv),
            h.closed v hv,
            cycle_preimage old t p m' k v hv,
          );
          marks = λ v hv. ground (arith, k.marks v hv, h.marks v hv, one v);
          loops =
              All-snoc (IsLoop start fin) out p h.loops
                (record { canonical = k.canonical; domain = k.domain });
          disjoint = Disjoint-snoc out p h.disjoint (
              covered-All (λ q. Apart q p) start fin out
                (λ q l c v i.
                  let hv = All-elem (InDomain start fin) v q.loop l.domain i in
                  let o : old v ≡ true = h.marks v hv ∙ c v i in
                  elim (Bool-cases (contains p v)) [ inl j ↦ cc (k.fresh v j) | inr j ↦ j ])
                h.loops);
          images = λ v hv i. apply_loops-append out (p ∷ []) v ∙ elim (Bool-cases (covered out v)) [
            | inl c ↦
                let o : old v ≡ true = h.marks v hv ∙ c in
                let fresh : contains p (at start table v) ≡ false =
                  elim (Bool-cases (contains p (at start table v))) [
                    | inl j ↦ cc (k.fresh v (cycle_preimage old t p m' k v hv j))
                    | inr j ↦ j
                  ] in
                rw (h.images v hv c) (apply_absent p (at start table v) fresh)
            | inr c ↦
                rw (apply_loops_absent out v c) (cycle_image old t p m' k v (ground (arith, one v)))
          ];
        }

  -- With more fuel than positions left the loop returns the cycles.
  create_from-IsDecomposed :
      start ≤ fin
      → (fuel relt : ℕ) (m : List Bool) (out : List PermLoop) → IsRound relt m out
      → length m - relt < fuel
      → (ls : List PermLoop) × (create_from start fuel table relt m out ≡ some ls)
        × IsDecomposed start fin table ls
  unfolding create_from
  create_from-IsDecomposed le zero relt m out h k = absurd (omega arith)
  create_from-IsDecomposed le (suc fuel) relt m out h k = elim (ℕ_discrete relt (length m)) [
    | yes e ↦ (
      out,
      ground arith,
      record {
        loops = h.loops;
        disjoint = h.disjoint;
        covers = λ v hv. sym (h.marks v hv) ∙ h.below v hv (omega (arith, h.size));
        images = λ v hv. h.images v hv (sym (h.marks v hv) ∙ h.below v hv (omega (arith, h.size)));
      },
    )
    | no ne ↦
        let more : relt < length m = omega (arith, h.range) in
        let t = start + relt in
        let (p, m', e, tr) =
          trace-IsTrace start fin table bij (is_marked start m) t (started relt m out h more le)
            (length table + 1) (at start table t) (make_loop (t ∷ [])) (mark start m t)
            (first_IsTrace relt m out h more le)
            (omega
              (arith, unseen-le (mark start m t), length-mark start fin m t, h.size, bij.size)) in
        let range = found_range start fin m' relt tr.size (omega (arith, tr.size, h.size)) in
        let (ls, e', d) =
          create_from-IsDecomposed le fuel (find_false (drop (suc relt) m') (suc relt)) m'
            (out ++ p ∷ []) (next_IsRound relt m out h more p m' tr)
            (omega (arith, tr.size, h.size)) in
        (ls, ground arith, d)
  ]

  -- For the table of a permutation of [start, fin] `create_loops` returns: it writes canonical loops of
  -- the domain, no two with a common element, which together hold every element, and applied one
  -- after the other they send each element where the table sends it.
  pub create_loops-IsDecomposed :
      start ≤ fin
      → (ls : List PermLoop) × (create_loops start table ≡ some ls)
        × IsDecomposed start fin table ls
  unfolding create_loops
  create_loops-IsDecomposed le =
      let blank = replicate (length table) false in
      let none_marked : (v : ℕ) → is_marked start blank v ≡ false =
        λ v. unfold is_marked in get_or-replicate (length table) false (v - start) in
      create_from-IsDecomposed le (length table + 1) 0 blank []
        (record {
          size = length-replicate (length table) false ∙ bij.size;
          range = omega arith;
          below = λ v hv lt. absurd (omega arith);
          unmarked = λ _. none_marked (start + 0);
          closed = λ v hv i. cc (none_marked (at start table v));
          marks = λ v hv. none_marked v ∙ sym (covered-nil v);
          loops = tt;
          disjoint = tt;
          images = λ v hv i. cc (covered-nil v);
        })
        (omega (arith, length-replicate (length table) false))
