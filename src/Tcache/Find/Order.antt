-- ===== src/Tcache/Find/Order.antt =====
-- The order of the column stores in a tree, and the search as a scan over the nodes in that order.
use pg_strom.Prelude.{
  ℕ, ◌<◌, ◌≤◌, ◌≡◌, refl, Bool, true, false, Option, none, some, List, [], ◌∷◌, ◌++◌, if◌then◌else◌,
  inl, inr, Bool-cases, ap, ◌∙◌, append_assoc, map,
}
use pg_strom.Prelude.Int.{pos, lt_int}
use pg_strom.Prelude.Run.{Run, done, ◌>>=◌}
use pg_strom.Tcache.{Heap, Tree, leaf, node, Node, nodes_of, get_column_store}
use pg_strom.Tcache.Find.{fetch_node, child_or_node}

abbrev pub without_depths : Node → Node
without_depths n = record n { l_depth = 0; r_depth = 0 }

-- The first node that satisfies a test.
abbrev pub first_node : (Node → Bool) → List Node → Option Node
first_node test [] = none
first_node test (n ∷ l) = let rest = first_node test l in if test n then some n else rest

abbrev pub AllNodes : (Node → Type 0) → Tree → Type 0
AllNodes P leaf = Unit {0}
AllNodes P (node l n r) = AllNodes P l × P n × AllNodes P r

pub first_node-hit :
    (test : Node → Bool) (xs : List Node) (n : Node) (ys : List Node)
    → test n ≡ true
    → first_node test (xs ++ n ∷ ys) ≡ elim (first_node test xs) [ some m ↦ some m | none ↦ some n ]
first_node-hit test [] n ys e = rw e refl
first_node-hit test (x ∷ xs) n ys e = elim (Bool-cases (test x)) [
  | inl hit ↦ rw hit refl
  | inr miss ↦ rw miss (first_node-hit test xs n ys e)
]

-- The nodes from the greatest to the least blocks.
abbrev pub nodes_back : Tree → List Node
nodes_back leaf = []
nodes_back (node l n r) = nodes_back r ++ n ∷ nodes_back l

-- Where all nodes of a tree fail the test, the search goes on behind them.
pub first_node-skip :
    (test : Node → Bool) (t : Tree) (ys : List Node)
    → AllNodes (λ n. test n ≡ false) t
    → first_node test (nodes_of t ++ ys) ≡ first_node test ys
first_node-skip test leaf ys fails = refl
first_node-skip test (node l n r) ys (in_l, at_n, in_r) =
    ap (first_node test) (append_assoc (nodes_of l) (n ∷ nodes_of r) ys)
    ∙ first_node-skip test l (n ∷ (nodes_of r ++ ys)) in_l
    ∙ rw at_n (first_node-skip test r ys in_r)

pub first_node-skip_back :
    (test : Node → Bool) (t : Tree) (ys : List Node)
    → AllNodes (λ n. test n ≡ false) t
    → first_node test (nodes_back t ++ ys) ≡ first_node test ys
first_node-skip_back test leaf ys fails = refl
first_node-skip_back test (node l n r) ys (in_l, at_n, in_r) =
    ap (first_node test) (append_assoc (nodes_back r) (n ∷ nodes_back l) ys)
    ∙ first_node-skip_back test r (n ∷ (nodes_back l ++ ys)) in_r
    ∙ rw at_n (first_node-skip_back test l ys in_l)

pub AllNodes-mono :
    {P Q : Node → Type 0} (t : Tree) → ((n : Node) → P n → Q n) → AllNodes P t → AllNodes Q t
AllNodes-mono leaf weaken all = tt
AllNodes-mono (node l n r) weaken (in_l, at_n, in_r) =
    (AllNodes-mono l weaken in_l, weaken n at_n, AllNodes-mono r weaken in_r)

module _ {C : Type 0} where
  -- Nodes are in order by the blocks of their column stores, none of which is empty.
  abbrev pub IsOrdered : Heap C → Tree → Type 0
  IsOrdered h leaf = Unit {0}
  IsOrdered h (node l n r) =
      IsOrdered h l
      × IsOrdered h r
      × (0 < (h.stores (n.tcs)).nrows)
      × ((h.stores (n.tcs)).blkno_min ≤ (h.stores (n.tcs)).blkno_max)
      × AllNodes (λ m. (h.stores (m.tcs)).blkno_max < (h.stores (n.tcs)).blkno_min) l
      × AllNodes (λ m. (h.stores (n.tcs)).blkno_max < (h.stores (m.tcs)).blkno_min) r

  -- What a search for the node gives back.
  unfoldable pub fetch_found : Bool → Option Node → Heap C → Run (Option ℕ × Heap C)
  fetch_found column_store none h = done (none, h)
  fetch_found column_store (some n) h = fetch_node column_store n h

  pub found_node :
      (column_store : Bool) (n : Node) (h : Heap C)
      → fetch_node column_store n h ≡ fetch_found column_store (some n) h
  unfolding fetch_found
  found_node column_store n h = refl

  fetch_node-passed :
      (column_store : Bool) (m : Node) (h : Heap C) (k : Heap C → Run (Option ℕ × Heap C))
      → (fetch_node column_store m h >>= λ (o, h'). elim o [
        | some found ↦ done (some found, h')
        | none ↦ k h'
      ])
        ≡ fetch_node column_store m h
  unfolding fetch_node get_column_store
  fetch_node-passed false m h k = refl
  fetch_node-passed true m h k = elim (Bool-cases (lt_int (pos 0) ((h.stores (m.tcs)).refcnt))) [
    | inl e ↦ rw e refl
    | inr e ↦ rw e refl
  ]

  -- A node that the child found is passed on as it is, and otherwise this node is taken.
  pub child_or_node-found :
      (column_store : Bool) (n : Node) (o : Option Node) (h : Heap C)
      → child_or_node column_store n (fetch_found column_store o h)
        ≡ fetch_found column_store (elim o [ some m ↦ some m | none ↦ some n ]) h
  unfolding child_or_node fetch_found
  child_or_node-found column_store n none h = refl
  child_or_node-found column_store n (some m) h =
      fetch_node-passed column_store m h (λ h'. fetch_node column_store n h')

  -- The depths that a node records do not matter to a search.
  pub first_node-without_depths :
      (test : ℕ → Bool) (column_store : Bool) (xs : List Node) (h : Heap C)
      → fetch_found column_store (first_node (λ n. test (n.tcs)) xs) h
        ≡ fetch_found column_store (first_node (λ n. test (n.tcs)) (map without_depths xs)) h
  unfolding fetch_found fetch_node
  first_node-without_depths test cs [] h = refl
  first_node-without_depths test cs (x ∷ xs) h = elim (Bool-cases (test (x.tcs))) [
    | inl e ↦ rw e refl
    | inr e ↦ rw e (first_node-without_depths test cs xs h)
  ]
