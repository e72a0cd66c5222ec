-- ===== src/Pcl/Codegen/Blocks.antt =====
-- What `StartIf`, `EndIf`, `StartWhile` and `EndWhile` (15-llvm/naive-pcl, Codegen.hpp) do to the blocks of
-- the function.
use Prim.Native.String.{String}
use mathlib.Core.List.{Perm}
use mathlib.Core.List.Perm
use cpp_graduate.Base.{◌≡◌, sym, ◌∙◌, subst, List, ◌∷◌, some}
use cpp_graduate.Pcl.Llvm.{Llvm}
use cpp_graduate.Pcl.Codegen.{CodeGen, start_if, end_if, start_while, end_while}
use cpp_graduate.Pcl.Codegen.Documented.{Observed, IsTerminator, Documented}
use cpp_graduate.Pcl.Codegen.Operations.{Ends, Ends-non_null, Inside, HasType, moved}

module _ (llvm : Llvm) (seen : Observed llvm) (doc : Documented llvm seen) where
  open llvm use {
    Ir, Value, Block, Function, create_block, set_insert_point, create_cond_br, create_br,
  }
  open seen use {int1_ty, parent, open_blocks}

  module _ (IsNamed : String → Type 0) (f : Function) where
    abbrev In : List Block → CodeGen llvm → Type 0
    In = Inside llvm seen doc IsNamed f

    module _ (rest : List Block) (g : CodeGen llvm) (s : In rest g) where
      -- A new block is unfinished and is not the one that the builder stands in.
      new_block-Inside :
          (x : String)
          → In ((create_block x f g.ir).0 ∷ rest) (record g { ir = (create_block x f g.ir).1 })
      new_block-Inside x =
          moved llvm seen doc IsNamed f rest _ g _ s.here s (doc.block_functions x f g.ir) (record {
            valid = doc.block_valid x f g.ir s.opens.valid;
            within = s.opens.within;
            position = doc.block_at x f g.ir ∙ s.opens.position;
            unfinished =
                Perm.trans (doc.block_blocks x f g.ir)
                  (Perm.trans (Perm.cons _ s.opens.unfinished) (Perm.swap _ _ rest));
          })

      -- After a terminator, the builder goes on in one of the other unfinished blocks.
      continued-Inside :
          (ir' : Ir) (b : Block) (rest' : List Block)
          → IsTerminator llvm seen f g.ir ir'
          → parent b ≡ f
          → Perm rest (b ∷ rest')
          → In rest' (record g { ir = set_insert_point b ir' })
      continued-Inside ir' b rest' t within p =
          let c = t.ends s.here rest s.opens in
          moved llvm seen doc IsNamed f rest rest' g _ b s
            (λ x. doc.insert_functions b ir' x ∙ t.functions x)
            (record {
              valid = doc.insert_valid b ir' c.valid;
              within = within;
              position = doc.insert_at b ir';
              unfinished =
                  subst (λ l. Perm l (b ∷ rest')) (sym (doc.insert_blocks b ir'))
                    (Perm.trans c.unfinished p);
            })

    module _ (rest : List Block) (g : CodeGen llvm) where
      pub start_if-Inside :
          (c : Value)
          → In rest g
          → HasType llvm seen doc int1_ty c
          → Ends llvm seen doc
              (λ b g'. In (b ∷ rest) g' × (parent b ≡ f))
              (start_if llvm (some c) g)
      unfolding start_if
      start_if-Inside c s h = Ends-non_null llvm seen doc _ g.function f _ g s.current (
        continued-Inside _ _ (new_block-Inside _ _ (new_block-Inside rest g s "then") "endif") _ _ _
            (doc.cond_br_terminator f c _ _ _ h (doc.block_parent "then" f g.ir)
              (doc.block_parent "endif" f _))
            (doc.block_parent "then" f g.ir) (Perm.swap _ _ rest),
        doc.block_parent "endif" f _,
      )

      pub end_if-Inside :
          (b : Block)
          → In (b ∷ rest) g
          → parent b ≡ f
          → Ends llvm seen doc (λ _. In rest) (end_if llvm b g)
      unfolding end_if
      end_if-Inside b s h =
          continued-Inside (b ∷ rest) g s _ b rest (doc.br_terminator f b g.ir h) h (Perm.refl _)

      pub start_while-Inside :
          (c : Value)
          → In rest g
          → HasType llvm seen doc int1_ty c
          → Ends llvm seen doc
              (λ bbs g'. In (bbs.1 ∷ rest) g' × (parent bbs.0 ≡ f) × (parent bbs.1 ≡ f))
              (start_while llvm (some c) g)
      unfolding start_while
      start_while-Inside c s h = Ends-non_null llvm seen doc _ g.function f _ g s.current (
        continued-Inside _ _ (new_block-Inside _ _ (new_block-Inside rest g s "body") "endwhile") _
            _ _
            (doc.cond_br_terminator f c _ _ _ h (doc.block_parent "body" f g.ir)
              (doc.block_parent "endwhile" f _))
            (doc.block_parent "body" f g.ir) (Perm.swap _ _ rest),
        doc.block_parent "body" f g.ir,
        doc.block_parent "endwhile" f _,
      )

      pub end_while-Inside :
          (c : Value) (body merge : Block)
          → In (merge ∷ rest) g
          → HasType llvm seen doc int1_ty c
          → parent body ≡ f
          → parent merge ≡ f
          → Ends llvm seen doc (λ _. In rest) (end_while llvm (some c) (body, merge) g)
      unfolding end_while
      end_while-Inside c body merge s h k j =
          continued-Inside (merge ∷ rest) g s _ merge rest
            (doc.cond_br_terminator f c body merge g.ir h k j) j (Perm.refl _)
