-- ===== src/Perms/Create/Trace.antt =====
-- The inner loop of `create_loops`: for a table that is a permutation it returns to its first element,
-- and what it collected is the cycle of that element.
use native.Mathlib.Decide.{ℕ_discrete, dec_lt}
use cpp_graduate.Base.{
  ℕ, zero, suc, ◌+◌, ◌-◌, ◌≤◌, ◌<◌, ◌≡◌, ◌≢◌, refl, ap, sym, ◌∙◌, subst, inl, inr, List, [], ◌∷◌,
  ◌++◌, Bool, true, false, ◌||◌, arith, length, elem, All, Bool-cases, some,
}
use cpp_graduate.Perms.Idom.{InDomain, at}
use cpp_graduate.Perms.Loops.{PermLoop, front, add, contains}
use cpp_graduate.Perms.Loops.Lists.{elem-append, All-append, All-elem}
use cpp_graduate.Perms.Loops.Canonical.{IsCanonical}
use cpp_graduate.Perms.Loops.Normal.{add-IsCanonical, add-above}
use cpp_graduate.Perms.Create.{is_marked, mark, trace}
use cpp_graduate.Perms.Create.Links.{Links, Links-snoc, Links-last, Links-end}
use cpp_graduate.Perms.Create.Marks.{unseen, length-mark, is_marked-mark, unseen-mark}

-- The table of a permutation of the domain.
pub record IsPermTable (start fin : ℕ) (table : List ℕ) : Type 0 where
  pub size : length table ≡ fin - start + 1
  pub maps : (v : ℕ) → InDomain start fin v → InDomain start fin (at start table v)
  pub injective :
      (v w : ℕ)
      → InDomain start fin v
      → InDomain start fin w
      → at start table v ≡ at start table w
      → v ≡ w

module _ (start fin : ℕ) (table : List ℕ) where
  -- What holds of the flags `old` when a cycle is started at `t`.
  pub record IsStart (old : ℕ → Bool) (t : ℕ) : Type 0 where
    pub inside : InDomain start fin t
    pub unmarked : old t ≡ false
    pub below : (v : ℕ) → InDomain start fin v → v < t → old v ≡ true
    pub closed : (v : ℕ) → InDomain start fin v → old (at start table v) ≡ true → old v ≡ true

  -- The state of the inner loop: `perm` is the beginning of the cycle of `t`, `nxt` comes next.
  pub record IsTrace (old : ℕ → Bool) (t nxt : ℕ) (perm : PermLoop) (m : List Bool) : Type 0 where
    pub size : length m ≡ fin - start + 1
    pub canonical : IsCanonical perm
    pub first : front perm.loop ≡ t
    pub domain : All (InDomain start fin) perm.loop
    pub marks : (v : ℕ) → InDomain start fin v → is_marked start m v ≡ (old v || contains perm v)
    pub fresh : (v : ℕ) → contains perm v ≡ true → old v ≡ false
    pub links : Links (at start table) nxt perm.loop

front-append : (l : List ℕ) (x : ℕ) → 0 < length l → front (l ++ x ∷ []) ≡ front l
front-append [] x h = absurd (omega arith)
front-append (y ∷ l) x h = refl

module _ (start fin : ℕ) (table : List ℕ) (bij : IsPermTable start fin table) where
  module _ (old : ℕ → Bool) (t nxt : ℕ) (perm : PermLoop) (m : List Bool)
      (s : IsStart start fin table old t) (h : IsTrace start fin table old t nxt perm m) where
    nxt-InDomain : InDomain start fin nxt
    nxt-InDomain =
        let (e, i, p) = Links-last (at start table) nxt perm.loop h.canonical.nonempty h.links in
        subst (InDomain start fin) p
          (bij.maps e (All-elem (InDomain start fin) e perm.loop h.domain i))

    -- The next element closes the cycle, or is in no cycle yet.
    nxt_new : nxt ≢ t → (contains perm nxt ≡ false) × (old nxt ≡ false)
    nxt_new ne = (not_in, not_old)
      where
        at_dom : (v : ℕ) → contains perm v ≡ true → InDomain start fin v
        at_dom v i = All-elem (InDomain start fin) v perm.loop h.domain i

        not_in : contains perm nxt ≡ false
        not_in = elim (Bool-cases (contains perm nxt)) [
          | inl i ↦ absurd (
              ne (
                sym (
                  Links-end (at start table) nxt perm.loop h.links h.canonical.unique
                    (λ v w a b. bij.injective v w (at_dom v a) (at_dom w b)) i)
                ∙ h.first))
          | inr i ↦ i
        ]

        not_old : old nxt ≡ false
        not_old = elim (Bool-cases (old nxt)) [
          | inl o ↦
              let (e, i, p) =
                Links-last (at start table) nxt perm.loop h.canonical.nonempty h.links in
              let back : old e ≡ true = s.closed e (at_dom e i) (ap old p ∙ o) in cc (h.fresh e i)
          | inr o ↦ o
        ]

    step_IsTrace :
        nxt ≢ t
        → IsTrace start fin table old t (at start table nxt) (add perm nxt) (mark start m nxt)
          × (suc (unseen (mark start m nxt)) ≡ unseen m)
    step_IsTrace ne =
        let nd = nxt-InDomain in
        let (not_in, not_old) = nxt_new ne in
        let above : front perm.loop ≤ nxt = elim (dec_lt nxt t) [
          | yes lt ↦ absurd (cc (s.below nxt nd lt))
          | no ge ↦ omega (arith, h.first)
        ] in
        let added = add-above perm nxt h.canonical not_in above in
        let free : is_marked start m nxt ≡ false = ground (arith, h.marks nxt) in
        (
          record {
            size = length-mark start fin m nxt ∙ h.size;
            canonical = add-IsCanonical perm nxt h.canonical not_in;
            first = rw added (front-append perm.loop nxt h.canonical.nonempty ∙ h.first);
            domain =
                rw added (All-append (InDomain start fin) perm.loop (nxt ∷ []) h.domain (nd, tt));
            marks = λ v hv. rw added (
                ground (
                  arith,
                  is_marked-mark start fin m nxt v nd hv h.size,
                  h.marks v hv,
                  elem-append v perm.loop (nxt ∷ []),
                ));
            fresh = λ v i. elim (ℕ_discrete nxt v) [
              | yes e ↦ subst (λ w. old w ≡ false) e not_old
              | no n ↦
                  let i' : elem v (perm.loop ++ nxt ∷ []) ≡ true = rw added at i in
                  h.fresh v (ground (arith, elem-append v perm.loop (nxt ∷ [])))
            ];
            links = rw added (Links-snoc (at start table) nxt perm.loop h.links);
          },
          unseen-mark start fin m nxt nd h.size free,
        )

  -- With more fuel than unset flags the loop returns, at the end of the cycle.
  pub trace-IsTrace :
      (old : ℕ → Bool) (t : ℕ)
      → IsStart start fin table old t
      → (fuel nxt : ℕ) (perm : PermLoop) (m : List Bool) → IsTrace start fin table old t nxt perm m
      → unseen m < fuel
      → (p : PermLoop) × (m' : List Bool) × (trace start fuel table t nxt perm m ≡ some (p, m'))
        × IsTrace start fin table old t t p m'
  unfolding trace
  trace-IsTrace old t s zero nxt perm m h k = absurd (omega arith)
  trace-IsTrace old t s (suc fuel) nxt perm m h k = elim (ℕ_discrete nxt t) [
    | yes e ↦ (perm, m, ground arith, subst (λ z. IsTrace start fin table old t z perm m) e h)
    | no ne ↦
        let (h', less) = step_IsTrace old t nxt perm m s h ne in
        let (p, m', e, last) =
          trace-IsTrace old t s fuel (at start table nxt) (add perm nxt) (mark start m nxt) h'
            (omega arith) in
        (p, m', ground arith, last)
  ]
