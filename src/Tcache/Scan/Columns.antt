-- ===== src/Tcache/Scan/Columns.antt =====
-- The order of a tree as an order of the list of its nodes.
use pg_strom.Prelude.{
  ℕ, ◌+◌, ◌<◌, ◌≤◌, ◌≡◌, refl, true, false, Option, none, some, List, [], ◌∷◌, ◌++◌, arith,
}
use pg_strom.Tcache.{Heap, Tree, leaf, node, Node, nodes_of}
use pg_strom.Tcache.Find.Order.{first_node, AllNodes, IsOrdered}
use pg_strom.Tcache.Find.Next.{is_reaching}

abbrev pub AllOf : (Node → Type 0) → List Node → Type 0
AllOf P [] = Unit {0}
AllOf P (n ∷ l) = P n × AllOf P l

AllOf-append :
    (P : Node → Type 0) (xs ys : List Node) → AllOf P xs → AllOf P ys → AllOf P (xs ++ ys)
AllOf-append P [] ys a b = b
AllOf-append P (x ∷ xs) ys (at_x, rest) b = (at_x, AllOf-append _ xs ys rest b)

pub AllOf-mono :
    {P Q : Node → Type 0} (xs : List Node) → ((n : Node) → P n → Q n) → AllOf P xs → AllOf Q xs
AllOf-mono [] weaken all = tt
AllOf-mono (x ∷ xs) weaken (at_x, rest) = (weaken x at_x, AllOf-mono xs weaken rest)

pub AllNodes-AllOf : (P : Node → Type 0) (t : Tree) → AllNodes P t → AllOf P (nodes_of t)
AllNodes-AllOf P leaf all = tt
AllNodes-AllOf P (node l n r) (in_l, at_n, in_r) =
    AllOf-append _ (nodes_of l) (n ∷ nodes_of r) (AllNodes-AllOf _ l in_l)
      (at_n, AllNodes-AllOf _ r in_r)

pub AllOf-at :
    (P : Node → Type 0) (xs : List Node) (n : Node) (ys : List Node) → AllOf P (xs ++ n ∷ ys) → P n
AllOf-at P [] n ys (at_n, rest) = at_n
AllOf-at P (x ∷ xs) n ys (at_x, rest) = AllOf-at _ xs n ys rest

pub AllOf-split : (P : Node → Type 0) (xs ys : List Node) → AllOf P (xs ++ ys) → AllOf P ys
AllOf-split P [] ys all = all
AllOf-split P (x ∷ xs) ys (at_x, rest) = AllOf-split P xs ys rest

abbrev pub first_of : List Node → Option Node
first_of [] = none
first_of (n ∷ l) = some n

module _ {C : Type 0} where
  abbrev pub min_of : Heap C → Node → ℕ
  min_of h n = (h.stores (n.tcs)).blkno_min

  abbrev pub max_of : Heap C → Node → ℕ
  max_of h n = (h.stores (n.tcs)).blkno_max

  -- Each node's blocks are before those of all that follow.
  abbrev pub Ascending : Heap C → List Node → Type 0
  Ascending h [] = Unit {0}
  Ascending h (n ∷ l) =
      (min_of h n ≤ max_of h n) × AllOf (λ m. max_of h n < min_of h m) l × Ascending h l

  Ascending-append :
      (h : Heap C) (xs : List Node) (n : Node) (ys : List Node)
      → Ascending h xs
      → min_of h n ≤ max_of h n
      → AllOf (λ m. max_of h m < min_of h n) xs
      → AllOf (λ m. max_of h n < min_of h m) ys
      → Ascending h ys
      → Ascending h (xs ++ n ∷ ys)
  Ascending-append h [] n ys a range below above b = (range, above, b)
  Ascending-append h (x ∷ xs) n ys (range', later, a) range (at_x, below) above b = (
    range',
    AllOf-append _ xs (n ∷ ys) later (at_x, AllOf-mono ys (λ m more. omega arith) above),
    Ascending-append h xs n ys a range below above b,
  )

  pub IsOrdered-Ascending : (h : Heap C) (t : Tree) → IsOrdered h t → Ascending h (nodes_of t)
  IsOrdered-Ascending h leaf ordered = tt
  IsOrdered-Ascending h (node l n r) (in_l, in_r, filled, range, below, above) =
      Ascending-append h (nodes_of l) n (nodes_of r) (IsOrdered-Ascending h l in_l) range
        (AllNodes-AllOf _ l below) (AllNodes-AllOf _ r above) (IsOrdered-Ascending h r in_r)

  pub Ascending-at :
      (h : Heap C) (xs : List Node) (n : Node) (ys : List Node)
      → Ascending h (xs ++ n ∷ ys)
      → min_of h n ≤ max_of h n
  Ascending-at h [] n ys (range, later, rest) = range
  Ascending-at h (x ∷ xs) n ys (range, later, rest) = Ascending-at h xs n ys rest

  -- The first node that reaches the block behind a node is the node that follows.
  pub first_node-next :
      (h : Heap C) (xs : List Node) (n : Node) (ys : List Node) (b : ℕ)
      → Ascending h (xs ++ n ∷ ys)
      → b ≡ max_of h n + 1
      → first_node (is_reaching h b) (xs ++ n ∷ ys) ≡ first_of ys
  first_node-next h [] n [] b (range, later, rest) e =
      let past : is_reaching h b n ≡ false = ground arith in rw past refl
  first_node-next h [] n (m ∷ ys) b (range, (after, later), (range', later', rest)) e =
      let past : is_reaching h b n ≡ false = ground arith in
      let hit : is_reaching h b m ≡ true = ground arith in rw (past, hit) refl
  first_node-next h (x ∷ xs) n ys b (range, later, rest) e =
      let past : is_reaching h b x ≡ false =
        ground (arith, AllOf-at _ xs n ys later, Ascending-at h xs n ys rest) in
      rw past (first_node-next h xs n ys b rest e)

  pub Ascending-split : (h : Heap C) (xs ys : List Node) → Ascending h (xs ++ ys) → Ascending h ys
  Ascending-split h [] ys all = all
  Ascending-split h (x ∷ xs) ys (range, later, rest) = Ascending-split h xs ys rest
