-- ===== src/LruC/Answers.antt =====
-- The answers of the allocator of 01-basics/lru-in-c between two states of the memory.
use mathlib.Core.List.{append_assoc}
use cpp_graduate.Base.{
  ◌≡◌, ◌⊎◌, refl, ap, sym, ◌∙◌, List, [], ◌∷◌, ◌++◌, Bool, true, false, inl, inr,
}

-- The answers that were taken are before those that are left.
abbrev pub Taken : List Bool → List Bool → Type 0
Taken answers answers' = (asked : List Bool) × (answers ≡ asked ++ answers')

abbrev pub some_refused : List Bool → Bool
some_refused [] = false
some_refused (true ∷ asked) = some_refused asked
some_refused (false ∷ asked) = true

-- One that was taken is a refusal, or there are none left, which is one as well.
abbrev pub Denied : List Bool → List Bool → Type 0
Denied answers answers' =
    (asked : List Bool) × (answers ≡ asked ++ answers')
    × ((some_refused asked ≡ true) ⊎ (answers' ≡ []))

-- The answers of the allocator before a request that it refused, and after it.
abbrev pub Refuses : List Bool → List Bool → Type 0
Refuses answers answers' = ((answers ≡ []) × (answers' ≡ [])) ⊎ (answers ≡ false ∷ answers')

pub Taken-refl : {a b : List Bool} → a ≡ b → Taken a b
Taken-refl e = ([], e)

pub Taken-trans : {a b c : List Bool} → Taken a b → Taken b c → Taken a c
Taken-trans {c = c} (i, e) (j, f) = (i ++ j, e ∙ ap (λ z. i ++ z) f ∙ sym (append_assoc i j c))

pub Refuses-Denied : {a b : List Bool} → Refuses a b → Denied a b
Refuses-Denied (inl (e, f)) = ([], e ∙ sym f, inr f)
Refuses-Denied (inr e) = (false ∷ [], e, inl refl)

pub Denied-Taken : {a b : List Bool} → Denied a b → Taken a b
Denied-Taken (i, e, f) = (i, e)

refused_after : (i j : List Bool) → some_refused j ≡ true → some_refused (i ++ j) ≡ true
refused_after [] j e = e
refused_after (true ∷ i) j e = refused_after i j e
refused_after (false ∷ i) j e = refl

refused_before : (i j : List Bool) → some_refused i ≡ true → some_refused (i ++ j) ≡ true
refused_before [] j e = absurd cc
refused_before (true ∷ i) j e = refused_before i j e
refused_before (false ∷ i) j e = refl

nothing_left : (j c : List Bool) → [] ≡ j ++ c → c ≡ []
nothing_left [] c e = sym e
nothing_left (x ∷ j) c e = absurd cc

-- A refusal is one of all the answers that were taken, before it or after it.
pub Denied-later : {a b c : List Bool} → Taken a b → Denied b c → Denied a c
Denied-later {c = c} (i, e) (j, f, r) =
    (i ++ j, e ∙ ap (λ z. i ++ z) f ∙ sym (append_assoc i j c), either r)
  where
    either : ((some_refused j ≡ true) ⊎ (c ≡ [])) → (some_refused (i ++ j) ≡ true) ⊎ (c ≡ [])
    either (inl h) = inl (refused_after i j h)
    either (inr h) = inr h

pub Denied-earlier : {a b c : List Bool} → Denied a b → Taken b c → Denied a c
Denied-earlier {b = b} {c = c} (i, e, r) (j, f) =
    (i ++ j, e ∙ ap (λ z. i ++ z) f ∙ sym (append_assoc i j c), either r)
  where
    either : ((some_refused i ≡ true) ⊎ (b ≡ [])) → (some_refused (i ++ j) ≡ true) ⊎ (c ≡ [])
    either (inl h) = inl (refused_before i j h)
    either (inr h) = inr (nothing_left j c (sym h ∙ f))
