-- ===== src/Intrusive/Links/Laws.antt =====
-- The operations of 01-basics/lru-in-c-datastructs/src/list.c on the sequence that a list holds.
use cpp_graduate.Base.{
  ℕ, ◌<◌, ◌≡◌, refl, sym, subst, List, [], ◌∷◌, ◌++◌, false, ◌==◌, if◌then◌else◌, elem, Bool-cases,
  inl, inr, ==_iff, arith,
}
use cpp_graduate.LruC.{Memory}
use cpp_graduate.LruC.Links
use cpp_graduate.LruC.Links.Chain.{Linked, eq_self, Linked-frame, prepend-Linked, differ}
use cpp_graduate.LruC.Links.Laws.{IsList, list_remove-IsList, Unique-middle}
use cpp_graduate.LruC.Links.Detach.{absent_node}
use cpp_graduate.Intrusive.Links.{Ring, list_init, list_push_front, list_remove}

pub list_init-IsList :
    (h : Ring) (head : ℕ) (nodes : List ℕ) (n : ℕ)
    → IsList h head nodes
    → elem n (head ∷ nodes) ≡ false
    → IsList (list_init h n) head nodes
unfolding list_init
list_init-IsList h head nodes n v m = record {
  distinct = v.distinct;
  linked =
      Linked-frame h (list_init h n) head nodes head
        (λ p q. (let w = differ p n (head ∷ nodes) q m in rw (w, if◌then◌else◌) refl))
        (λ p q. (let w = differ p n (head ∷ nodes) q m in rw (w, if◌then◌else◌) refl)) v.linked;
  allocated = v.allocated;
}

-- A removed link points at itself.
pub remove-IsList :
    (h : Ring) (head : ℕ) (ys : List ℕ) (n : ℕ) (zs : List ℕ)
    → IsList h head (ys ++ n ∷ zs)
    → IsList (list_remove h n) head (ys ++ zs)
unfolding list_remove Links.list_remove Links.detach
remove-IsList h head ys n zs v =
    let mem : Memory = record { answers = []; allocated = 0; freed = 0 } in
    let u = Unique-middle ys n zs v.distinct.1 in
    list_init-IsList (Links.list_remove h head n mem).0 head (ys ++ zs) n
      (list_remove-IsList h head ys n zs mem v)
      (let a = absent_node head n ys zs v.distinct.0 in ground (arith, u))

-- Read through the list or through the link, the old first link is the same.
push_front_lem :
    (h : Ring) (head n : ℕ)
    → (head == n) ≡ false
    → list_push_front h head n ≡ Links.prepend h head n
unfolding list_push_front Links.prepend
push_front_lem h head n ne = rw (ne, eq_self n, if◌then◌else◌) refl

pub push_front-IsList :
    (h : Ring) (head : ℕ) (nodes : List ℕ) (n : ℕ)
    → IsList h head nodes
    → elem n (head ∷ nodes) ≡ false
    → n < h.unused
    → IsList (list_push_front h head n) head (n ∷ nodes)
push_front-IsList h head nodes n v m lt = record {
  distinct = ground (arith, v.distinct);
  linked =
      subst (λ k. Linked k head (n ∷ nodes) head) (sym (push_front_lem h head n (ground arith)))
        (prepend-Linked h head n nodes m v.distinct v.linked);
  allocated = λ p q.
      subst (λ k. p < k.unused) (sym (push_front_lem h head n (ground arith)))
        (unfold Links.prepend in
          elim (Bool-cases (n == p)) [
            | inl e ↦ subst (λ z. z < h.unused) ((==_iff n p).0 e) lt
            | inr e ↦ v.allocated p (ground arith)
          ]);
}
