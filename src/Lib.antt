-- ===== src/Lib.antt =====
-- Verification of cpp-graduate, the code samples of a C++ course.
--
-- The repository is a collection of programs, one directory to a lecture. Modelled here are those with
-- state and algorithms of their own; each module tree names the files that it is about.
--
-- * `Perms` is 17-algorithms/permutations. `Perms.Idom` is the domain [start, fin] of idomain.hpp,
--   `Perms.Loops` the class `PermLoop` and `Perms.Create` the functions `create_loops` and
--   `simplify_loops` of permloops.hpp, `Perms.Product` the application of a vector of loops, and
--   `Perms.Permutation` the class `Permutation` of perms.hpp, and
--   `Perms.Groups` the function `orbit` of groups.hpp. An element is a number of the domain, a
--   loop is the list of its elements, a table the list of its values by position, and an iterator the
--   suffix that it points at. Without `CHECKS`, as the build has it, the constructors do not call
--   `check`, which is a function of its own here. Failed asserts and exhausted fuel are `none`. The two
--   loops of `create_loops` have the length of the table plus one as fuel: each step of the inner loop
--   sets a flag that was unset, and each round of the outer one moves to a later position. The fuel of
--   `orbit` is any number above a bound of the elements, since each round sees a new one.
-- * `Lru` is 01-basics/lru-in-cxx: the template `cache_t` of cache.hpp, whose list iterators are node
--   identities, and the request loop of `main` in cache.cc. `Lru.Spec` says what an LRU cache is. The page
--   loader is a function argument and returns.
-- * `LruC` is 01-basics/lru-in-c. `LruC.Links` is list.c, whose nodes are addresses and whose fields are
--   functions of them, `LruC.HashMap` is hash_map.c, `LruC.Cache` and `LruC.Lifetime` are lru.c over the
--   two, and `LruC.Input` and `LruC.Driver` are `read_integer` and `main` of main.c. A key is the bit
--   pattern of an `int64_t`, a pointer to a size of 8 bytes. Whether a request for memory succeeds is the
--   next answer of a list in the state `Memory`, which counts the blocks; `LruC.Answers` tells which answers
--   were taken. The loops that empty a list have a fuel above its length; that of `main` is 2^63, which no
--   capacity reaches. The test of the results of `printf` and `fflush` is left out.
-- * `Intrusive` is 01-basics/lru-in-c-datastructs, whose entries hold the links of their list and of their
--   table: `Intrusive.IntMap` is int_map.c, over a memory of pointers by address, `Intrusive.Links` is list.c,
--   and `Intrusive.Pool` is `lru_access` of lru.c. The loops along a chain have a fuel above its length. The
--   entries do not stand where the buckets do. `lru_create` and `lru_destroy` of this version
--   are left out.
-- * `Pcl` is 15-llvm/naive-pcl. The interpreter is `calc` of the nodes of Node.hpp and Node.cc. A node is a
--   value, a declaration an identity with its value in the state, which also holds the input that is
--   left and the output. Undefined behaviour of C++ is a result of its own; the order of two operands,
--   which C++ leaves open, is a parameter. `calc` takes fuel, which bounds the depth of the calls;
--   `Pcl.Fuel` and `Pcl.Loops` are about how much is needed. An input out of the range of `int` gives the
--   nearest one and leaves a failed stream. `Pcl.Scopes` is Symtab.hpp with `visible` and `access` of
--   `Scope`, over names of any type with equality.
--   `Pcl.Dump` is `dump` of the nodes, `Pcl.Destroy` their destructors. `Pcl.Codegen` is the code
--   generator, Codegen.hpp, Codegen.cc and `codegen` of the nodes, with the calls of driver.cc in
--   `compile`, whose argument is the scope that the parser builds with the names it declares. LLVM is
--   the parameter `Llvm` of `Pcl.Llvm`; what its documentation says of types, requirements and
--   terminators is `Pcl.Codegen.Documented`, and `Pcl.Codegen.Sample` is a builder for which it holds.
--   `Pcl.Codegen.Kinds` tells numbers from truth values. A failed assert is the result `aborted`.
-- * `Pcl.Archived` is Node.cc of archive/13-llvm/01-naive, the first version of `calc`, `codegen`, `dump`
--   and the destructors, and the lookup of names in its Symtab.hpp. The end of the program at a division
--   by zero is the result `exited`, with the line that is printed and the status.
-- * `Vectors` is 08-exceptions/myvec-demo: `push`, assignment and `pop` of the vector of myvec-3.cc,
--   over elements whose copies throw when the counter of controllable.hh reaches zero. The world counts
--   live objects and blocks. The recursion of `push` on a fresh vector takes fuel, of which two are
--   enough, since the fresh vector has room. An allocation of the buffer that fails is not modelled.
-- * `Arrays` is the same directory's myvec-1.cc (`Arrays.Naive`) and myvec-2.cc (`Arrays.Safe`), whose vectors
--   assign to the cells of an array of default elements. An access outside an array is a result of its own.
--   The allocations do not fail, and the default constructor does not throw.
-- * `Constexpr` is 18-constexpr: `static_log` of static-log.cc, whose mask of one bit is the test of that
--   bit of the number, and the template `Sqrt` of isqrt.cc, on a fuel of one for each instantiation.
-- * `Base` holds what the models share: Boolean tests, lists by native index, the predicate `All`.
--
-- Not modelled: input and output, which these programs only pass through; the lexer and the grammar of
-- ParaCL; the graphics, OpenCL and LLVM samples, which consist of calls of those libraries; and the
-- samples that show one language rule.
pub mod Base
pub mod Perms
pub mod Lru
pub mod LruC
pub mod Intrusive
pub mod Pcl
pub mod Vectors
pub mod Arrays
pub mod Constexpr
