-- ===== src/Intrusive/IntMap/Chain.antt =====
-- The chain of entries behind a pointer in 01-basics/lru-in-c-datastructs/src/int_map.c.
use cpp_graduate.Base.{
  ℕ, zero, suc, ◌<◌, ◌≡◌, refl, ap, ◌∙◌, List, [], ◌∷◌, ◌++◌, Bool, true, false, Option, none, some,
  ◌==◌, if◌then◌else◌, elem, length, Option-cases, inl, inr, arith,
}
use cpp_graduate.Perms.Loops.Lists.{Unique, elem-append}
use cpp_graduate.LruC.Links.Chain.{here, there, eq_self, differ}
use cpp_graduate.Intrusive.IntMap.{
  Store, write, set_prev_next, set_prev_next_of, scan, link, unlink,
}

-- The entries from the pointer at `a` on: each knows the address of the pointer to it, and the last one
-- points at nothing.
abbrev pub Chain : Store → ℕ → List ℕ → Type 0
Chain t a [] = t.cell a ≡ none
Chain t a (e ∷ es) = (t.cell a ≡ some e) × (t.prev_next e ≡ some a) × Chain t e es

-- What a chain reads.
pub Chain-frame :
    (t u : Store) (a : ℕ) (es : List ℕ)
    → ((p : ℕ) → elem p (a ∷ es) ≡ true → u.cell p ≡ t.cell p)
    → ((p : ℕ) → elem p es ≡ true → u.prev_next p ≡ t.prev_next p)
    → Chain t a es
    → Chain u a es
Chain-frame t u a [] f g c = f a (here a []) ∙ c
Chain-frame t u a (e ∷ es) f g (c, d, k) = (
  f a (here a (e ∷ es)) ∙ c,
  g e (here e es) ∙ d,
  Chain-frame t u e es (λ p m. f p (there a p (e ∷ es) m)) (λ p m. g p (there e p es m)) k,
)

-- The pointer to an entry of a chain is at an address of the chain before it.
pub slot_in :
    (t : Store) (a : ℕ) (ys : List ℕ) (e : ℕ) (zs : List ℕ)
    → Chain t a (ys ++ e ∷ zs)
    → (p : ℕ) × (t.prev_next e ≡ some p) × (elem p (a ∷ ys) ≡ true)
slot_in t a [] e zs (c, d, k) = (a, d, here a [])
slot_in t a (y ∷ ys) e zs (c, d, k) =
    let (p, f, m) = slot_in t y ys e zs k in (p, f, there a p (y ∷ ys) m)

-- The first entry of a key.
unfoldable pub find_in : Store → ℕ → List ℕ → Option ℕ
find_in t key [] = none
find_in t key (e ∷ es) = if t.key e == key then some e else find_in t key es

pub scan_lem :
    (fuel : ℕ) (t : Store) (a key : ℕ) (es : List ℕ)
    → Chain t a es
    → length es < fuel
    → scan fuel t (t.cell a) key ≡ some (find_in t key es)
unfolding scan find_in
scan_lem zero t a key es c lt = absurd (omega arith)
scan_lem (suc fuel) t a key [] c lt = rw c refl
scan_lem (suc fuel) t a key (e ∷ es) (c, d, k) lt =
    let ih = scan_lem fuel t e key es k (omega arith) in rw (c, ih) (chosen (t.key e == key))
  where
    chosen :
        (b : Bool)
        → (if b then some (some e) else some (find_in t key es))
          ≡ some (if b then some e else find_in t key es)
    chosen true = refl
    chosen false = refl

-- What the writes of the two changes leave in memory.
cell_of : (t : Store) (o q : Option ℕ) (p : ℕ) → (set_prev_next_of t o q).cell p ≡ t.cell p
cell_of t none q p = refl
cell_of t (some e) q p = refl

link_cell :
    (t : Store) (a e p : ℕ)
    → (a == e) ≡ false
    → (link t a e).cell p ≡ (if p == a then some e else (if p == e then t.cell a else t.cell p))
unfolding link
link_cell t a e p n =
    ap (λ z. if p == a then some e else z)
      (cell_of (set_prev_next (write t e (t.cell a)) e (some a)) ((write t e (t.cell a)).cell a)
        (some e) p)

link_prev-none :
    (t : Store) (a e p : ℕ)
    → (a == e) ≡ false
    → t.cell a ≡ none
    → (link t a e).prev_next p ≡ (if p == e then some a else t.prev_next p)
unfolding link
link_prev-none t a e p n h = rw (n, if◌then◌else◌, h) refl

link_prev-some :
    (t : Store) (a e x p : ℕ)
    → (a == e) ≡ false
    → t.cell a ≡ some x
    → (link t a e).prev_next p
      ≡ (if p == x then some e else (if p == e then some a else t.prev_next p))
unfolding link
link_prev-some t a e x p n h = rw (n, if◌then◌else◌, h) refl

unlink_cell :
    (t : Store) (slot e p : ℕ)
    → (unlink t slot e).cell p
      ≡ (if p == e then none else (if p == slot then t.cell e else t.cell p))
unfolding unlink
unlink_cell t slot e p =
    ap (λ z. if p == e then none else z)
      (cell_of (write t slot (t.cell e)) ((write t slot (t.cell e)).cell e) (t.prev_next e) p)

unlink_prev-none :
    (t : Store) (slot e p : ℕ)
    → (e == slot) ≡ false
    → t.cell e ≡ none
    → (unlink t slot e).prev_next p ≡ (if p == e then none else t.prev_next p)
unfolding unlink
unlink_prev-none t slot e p n h = rw (n, if◌then◌else◌, h) refl

unlink_prev-some :
    (t : Store) (slot e x p : ℕ)
    → (e == slot) ≡ false
    → t.cell e ≡ some x
    → (unlink t slot e).prev_next p
      ≡ (if p == e then none else (if p == x then t.prev_next e else t.prev_next p))
unfolding unlink
unlink_prev-some t slot e x p n h = rw (n, if◌then◌else◌, h) refl

-- An entry that is in no chain is put in front.
pub link-Chain :
    (t : Store) (a e : ℕ) (es : List ℕ)
    → elem e (a ∷ es) ≡ false
    → Unique (a ∷ es)
    → Chain t a es
    → Chain (link t a e) a (e ∷ es)
link-Chain t a e [] m u c =
    let n : (a == e) ≡ false = ground arith in
    (
      ground (arith, link_cell t a e a n),
      ground (arith, link_prev-none t a e e n c),
      ground (arith, link_cell t a e e n, c),
    )
link-Chain t a e (x ∷ es) m u (c, d, k) =
    let n : (a == e) ≡ false = ground arith in
    (
      ground (arith, link_cell t a e a n),
      ground (arith, link_prev-some t a e x e n c),
      (
        ground (arith, link_cell t a e e n, c),
        ground (arith, link_prev-some t a e x x n c),
        Chain-frame t (link t a e) x es
            (λ p q.
              let v = differ p a (x ∷ es) q u.0 in
              let w = differ p e (x ∷ es) q (ground arith) in
              link_cell t a e p n ∙ rw (v, w, if◌then◌else◌) refl)
            (λ p q.
              let v = differ p x es q u.1.0 in
              let w = differ p e es q (ground arith) in
              link_prev-some t a e x p n c ∙ rw (v, w, if◌then◌else◌) refl)
            k,
      ),
    )

-- Another chain, without the entry, the pointer and what it points at, is as it was.
pub link-other :
    (t : Store) (a e b : ℕ) (xs : List ℕ)
    → (a == e) ≡ false
    → elem e (b ∷ xs) ≡ false
    → elem a (b ∷ xs) ≡ false
    → ((x : ℕ) → t.cell a ≡ some x → elem x xs ≡ false)
    → Chain t b xs
    → Chain (link t a e) b xs
link-other t a e b xs n m k o c =
    Chain-frame t (link t a e) b xs
      (λ p q.
        let v = differ p a (b ∷ xs) q k in
        let w = differ p e (b ∷ xs) q m in link_cell t a e p n ∙ rw (v, w, if◌then◌else◌) refl)
      (λ p q. elim (Option-cases (t.cell a)) [
        | inl h ↦
            let w = differ p e xs q (ground arith) in
            link_prev-none t a e p n h ∙ rw (w, if◌then◌else◌) refl
        | inr (x, h) ↦
            let v = differ p x xs q (o x h) in
            let w = differ p e xs q (ground arith) in
            link_prev-some t a e x p n h ∙ rw (v, w, if◌then◌else◌) refl
      ])
      c

eq_sym : (p q : ℕ) → (p == q) ≡ false → (q == p) ≡ false
eq_sym p q h = ground arith

in_middle : (e : ℕ) (ys zs : List ℕ) → elem e (ys ++ e ∷ zs) ≡ true
in_middle e ys zs = ground (arith, elem-append e ys (e ∷ zs), here e zs)

-- What an entry of a chain points at comes behind it.
pub next_in :
    (t : Store) (a : ℕ) (ys : List ℕ) (e : ℕ) (zs : List ℕ) (x : ℕ)
    → Chain t a (ys ++ e ∷ zs)
    → t.cell e ≡ some x
    → elem x zs ≡ true
next_in t a [] e [] x (c, d, k) h = absurd cc
next_in t a [] e (z ∷ zs) x (c, d, (g, i, k)) h = let same : z ≡ x = cc in ground (arith, here z zs)
next_in t a (y ∷ ys) e zs x (c, d, k) h = next_in t y ys e zs x k h

-- The chain without an entry.
pub unlink-Chain :
    (t : Store) (slot a : ℕ) (ys : List ℕ) (e : ℕ) (zs : List ℕ)
    → Unique (ys ++ e ∷ zs)
    → elem a (ys ++ e ∷ zs) ≡ false
    → t.prev_next e ≡ some slot
    → (e == slot) ≡ false
    → Chain t a (ys ++ e ∷ zs)
    → Chain (unlink t slot e) a (ys ++ zs)
unlink-Chain t slot a [] e [] u m f n (c, d, k) =
    let same : slot ≡ a = cc in ground (arith, unlink_cell t slot e a)
unlink-Chain t slot a [] e (z ∷ zs) u m f n (c, d, (g, h, k)) =
    let same : slot ≡ a = cc in
    (
      ground (arith, unlink_cell t slot e a),
      unlink_prev-some t slot e z z n g
          ∙ (let w : (z == e) ≡ false = ground arith in rw (w, eq_self z, if◌then◌else◌) d),
      Chain-frame t (unlink t slot e) z zs
          (λ p q.
            let v = differ p slot (z ∷ zs) q (ground arith) in
            let w = differ p e (z ∷ zs) q u.0 in
            unlink_cell t slot e p ∙ rw (v, w, if◌then◌else◌) refl)
          (λ p q.
            let v = differ p z zs q u.1.0 in
            let w = differ p e zs q (ground arith) in
            unlink_prev-some t slot e z p n g ∙ rw (v, w, if◌then◌else◌) refl)
          k,
    )
unlink-Chain t slot a (y ∷ ys) e zs u m f n (c, d, k) =
    let (p, g, i) = slot_in t y ys e zs k in
    let same : slot ≡ p = cc in
    let ea : (a == e) ≡ false =
      eq_sym e a (differ e a (ys ++ e ∷ zs) (in_middle e ys zs) (ground arith)) in
    let sa : (a == slot) ≡ false =
      eq_sym slot a
        (differ slot a (y ∷ (ys ++ e ∷ zs)) (ground (arith, elem-append slot ys (e ∷ zs))) m) in
    let ye : (y == e) ≡ false = eq_sym e y (differ e y (ys ++ e ∷ zs) (in_middle e ys zs) u.0) in
    (
      unlink_cell t slot e a ∙ rw (ea, sa, if◌then◌else◌) c,
      (elim (Option-cases (t.cell e)) [
        | inl h ↦ unlink_prev-none t slot e y n h ∙ rw (ye, if◌then◌else◌) d
        | inr (x, h) ↦
            let v = next_in t y ys e zs x k h in
            let w : (y == x) ≡ false =
              eq_sym x y
                (differ x y (ys ++ e ∷ zs) (ground (arith, elem-append x ys (e ∷ zs))) u.0) in
            unlink_prev-some t slot e x y n h ∙ rw (ye, w, if◌then◌else◌) d
      ]),
      unlink-Chain t slot y ys e zs u.1 u.0 f n k,
    )

-- Another chain, without the entry, the pointer to it and what it points at, is as it was.
pub unlink-other :
    (t : Store) (slot e b : ℕ) (xs : List ℕ)
    → (e == slot) ≡ false
    → elem e (b ∷ xs) ≡ false
    → elem slot (b ∷ xs) ≡ false
    → ((x : ℕ) → t.cell e ≡ some x → elem x xs ≡ false)
    → Chain t b xs
    → Chain (unlink t slot e) b xs
unlink-other t slot e b xs n m k o c =
    Chain-frame t (unlink t slot e) b xs
      (λ p q.
        let v = differ p slot (b ∷ xs) q k in
        let w = differ p e (b ∷ xs) q m in unlink_cell t slot e p ∙ rw (v, w, if◌then◌else◌) refl)
      (λ p q. elim (Option-cases (t.cell e)) [
        | inl h ↦
            let w = differ p e xs q (ground arith) in
            unlink_prev-none t slot e p n h ∙ rw (w, if◌then◌else◌) refl
        | inr (x, h) ↦
            let v = differ p x xs q (o x h) in
            let w = differ p e xs q (ground arith) in
            unlink_prev-some t slot e x p n h ∙ rw (v, w, if◌then◌else◌) refl
      ])
      c
