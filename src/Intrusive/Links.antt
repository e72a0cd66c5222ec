-- ===== src/Intrusive/Links.antt =====
-- 01-basics/lru-in-c-datastructs/src/list.c: a circular list of links. The fields of the links are functions
-- of their address, as those of `LruC.Links` are.
pub mod Laws
use cpp_graduate.Base.{ℕ, Bool, ◌==◌}
use cpp_graduate.LruC.Links.{Heap, set_prev, set_next}

-- A link has no payload of its own.
abbrev pub Ring : Type 0
Ring = Heap Unit

unfoldable pub list_init : Ring → ℕ → Ring
list_init h link = set_prev (set_next h link link) link link

unfoldable pub list_empty : Ring → ℕ → Bool
list_empty h head = h.next head == head

-- Four writes in the order of the code.
unfoldable pub list_push_front : Ring → ℕ → ℕ → Ring
list_push_front h head link =
    let h1 = set_prev h link head in
    let h2 = set_next h1 link (h1.next head) in
    let h3 = set_prev h2 (h2.next head) link in set_next h3 head link

unfoldable pub list_remove : Ring → ℕ → Ring
unfolding list_init
list_remove h link =
    let h1 = set_next h (h.prev link) (h.next link) in
    let h2 = set_prev h1 (h1.next link) (h1.prev link) in list_init h2 link
