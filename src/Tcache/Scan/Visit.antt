-- ===== src/Tcache/Scan/Visit.antt =====
-- The forward scan over the column stores, from its start until nothing follows.
use pg_strom.Prelude.{
  ℕ, zero, suc, ◌+◌, ◌<◌, ◌%◌, ◌^◌, ◌≡◌, refl, true, false, Option, none, some, List, [], ◌∷◌, ◌++◌,
  map, ◌==◌, length, inl, inr, Bool-cases, arith, ap, sym, ◌∙◌, subst, append_assoc,
}
use pg_strom.Prelude.Int.{pos, lt_int}
use pg_strom.Prelude.Run.{Run, done, fault, ◌>>=◌}
use pg_strom.Tcache.{Heap, Tree, leaf, node, Node, nodes_of, put_column_store}
use pg_strom.Tcache.Find.{find_next_column_store, find_next_internal}
use pg_strom.Tcache.Find.Order.{first_node, IsOrdered, fetch_found}
use pg_strom.Tcache.Find.Next.{is_reaching, find_next_internal-first_node}
use pg_strom.Tcache.Scan.{next_column_store}
use pg_strom.Tcache.Scan.Columns.{
  AllOf, AllOf-mono, max_of, Ascending, IsOrdered-Ascending, AllOf-split, Ascending-split, first_of,
  first_node-next,
}
use pg_strom.Tcache.Scan.Reference.{
  held, suc_int-positive, fetch_node-held, put-held, put-held_alone, range-held, IsOrdered-held,
}

module _ {C : Type 0} where
  -- The column stores that a scan returns from `cur` on, until it returns none.
  unfoldable pub visit : ℕ → Tree → Option ℕ → Heap C → Run (List ℕ × Heap C)
  visit zero tcs_root cur h = fault
  visit (suc calls) tcs_root cur h = next_column_store tcs_root cur h >>= λ (next, h'). elim next [
    | none ↦ done ([], h')
    | some tcs ↦ visit calls tcs_root (some tcs) h' >>= λ (rest, h''). done (tcs ∷ rest, h'')
  ]

  abbrev held_first : List Node → Heap C → Run (Option ℕ × Heap C)
  held_first [] h = done (none, h)
  held_first (n ∷ l) h = done (some (n.tcs), held (n.tcs) h)

  find_next_column_store-first_node :
      (t : Tree) (blkno : ℕ) (h : Heap C)
      → IsOrdered h t
      → find_next_column_store t blkno h
        ≡ fetch_found true (first_node (is_reaching h blkno) (nodes_of t)) h
  unfolding find_next_column_store find_next_internal
  find_next_column_store-first_node leaf blkno h ordered =
      find_next_internal-first_node leaf blkno true h ordered
  find_next_column_store-first_node (node l n r) blkno h ordered =
      find_next_internal-first_node (node l n r) blkno true h ordered

  abbrev pub Referenced : Heap C → Node → Type 0
  Referenced h n =
      (lt_int (pos 0) ((h.stores (n.tcs)).refcnt) ≡ true)
      × ((h.stores (n.tcs)).blkno_max + 1 < 2 ^ 32)

  fetch-held_first :
      (l : List Node) (h : Heap C)
      → AllOf (Referenced h) l
      → fetch_found true (first_of l) h ≡ held_first l h
  unfolding fetch_found
  fetch-held_first [] h all = refl
  fetch-held_first (n ∷ l) h ((positive, small), rest) = fetch_node-held n h positive

  next-start :
      (t : Tree) (h : Heap C)
      → IsOrdered h t
      → AllOf (Referenced h) (nodes_of t)
      → next_column_store t none h ≡ held_first (nodes_of t) h
  unfolding next_column_store
  next-start t h ordered all =
      find_next_column_store-first_node t 0 h ordered
      ∙ ap (λ o. fetch_found true o h) (all_reach (nodes_of t))
      ∙ fetch-held_first (nodes_of t) h all
    where
      all_reach : (l : List Node) → first_node (is_reaching h 0) l ≡ first_of l
      all_reach [] = refl
      all_reach (n ∷ l) = let hit : is_reaching h 0 n ≡ true = ground arith in rw hit refl

  Referenced-held : (k : ℕ) (h : Heap C) (n : Node) → Referenced h n → Referenced (held k h) n
  Referenced-held k h n (positive, small) = (still, omega (arith, (range-held k (n.tcs) h).0))
    where
      still : lt_int (pos 0) (((held k h).stores (n.tcs)).refcnt) ≡ true
      still = elim (Bool-cases (n.tcs == k)) [
        | inl e ↦
            let same : k ≡ n.tcs = ground arith in
            rw (e, same) (suc_int-positive ((h.stores (n.tcs)).refcnt) positive)
        | inr e ↦ rw e positive
      ]

  -- The old reference is put when the next one has been taken.
  put-after :
      (n : Node) (after : List Node) (h : Heap C)
      → Ascending h (n ∷ after)
      → lt_int (pos 0) ((h.stores (n.tcs)).refcnt) ≡ true
      → (held_first after (held (n.tcs) h) >>= λ (next, h').
          put_column_store (n.tcs) h' >>= λ h''. done (next, h''))
        ≡ held_first after h
  put-after n [] h ascending positive = rw (put-held_alone (n.tcs) h positive) refl
  put-after n (m ∷ l) h (range, (later, later'), (range', later'', rest)) positive =
      rw (put-held (n.tcs) (m.tcs) h apart positive) refl
    where
      apart : (n.tcs == m.tcs) ≡ false
      apart = elim (Bool-cases (n.tcs == m.tcs)) [
        | inr e ↦ e
        | inl e ↦
            let same : n.tcs ≡ m.tcs = ground arith in
            let maxima = ap (λ k. (h.stores k).blkno_max) same in absurd (omega (arith, maxima))
      ]

  next-after :
      (t : Tree) (h : Heap C) (before : List Node) (n : Node) (after : List Node)
      → IsOrdered h t
      → AllOf (Referenced h) (nodes_of t)
      → nodes_of t ≡ before ++ n ∷ after
      → next_column_store t (some (n.tcs)) (held (n.tcs) h) ≡ held_first after h
  unfolding next_column_store
  next-after t h before n after ordered all e =
      let g = held (n.tcs) h in
      let ordered' = IsOrdered-held (n.tcs) h t ordered in
      let here =
        AllOf-split (Referenced h) before (n ∷ after) (subst (λ l. AllOf (Referenced h) l) e all) in
      let ascending : (f : Heap C) → IsOrdered f t → Ascending f (before ++ n ∷ after) =
        λ f o. subst (λ l. Ascending f l) e (IsOrdered-Ascending f t o) in
      let small = (Referenced-held (n.tcs) h n (here.0)).1 in
      let wrap : (max_of g n + 1) % 2 ^ 32 ≡ max_of g n + 1 = ground (arith, small) in
      let found : find_next_column_store t ((max_of g n + 1) % 2 ^ 32) g ≡ held_first after g =
        find_next_column_store-first_node t ((max_of g n + 1) % 2 ^ 32) g ordered'
        ∙ ap (λ l. fetch_found true (first_node (is_reaching g ((max_of g n + 1) % 2 ^ 32)) l) g) e
        ∙ ap (λ o. fetch_found true o g)
            (first_node-next g before n after ((max_of g n + 1) % 2 ^ 32) (ascending g ordered')
              wrap)
        ∙ fetch-held_first after g (AllOf-mono after (λ m. Referenced-held (n.tcs) h m) (here.1)) in
      ap
        (λ (r : Run (Option ℕ × Heap C)).
          r >>= λ (next, h'). put_column_store (n.tcs) h' >>= λ h''. done (next, h''))
        found
      ∙ put-after n after h (Ascending-split h before (n ∷ after) (ascending h ordered)) (here.0.0)

  visit-after :
      (t : Tree) (h : Heap C) (before : List Node) (n : Node) (after : List Node)
      → IsOrdered h t
      → AllOf (Referenced h) (nodes_of t)
      → nodes_of t ≡ before ++ n ∷ after
      → visit (suc (length after)) t (some (n.tcs)) (held (n.tcs) h)
        ≡ done (map (λ m. m.tcs) after, h)
  unfolding visit
  visit-after t h before n [] ordered all e = rw (next-after t h before n [] ordered all e) refl
  visit-after t h before n (m ∷ after) ordered all e =
      let e' : nodes_of t ≡ (before ++ n ∷ []) ++ m ∷ after =
        e ∙ sym (append_assoc before (n ∷ []) (m ∷ after)) in
      rw
        (
          next-after t h before n (m ∷ after) ordered all e,
          visit-after t h (before ++ n ∷ []) m after ordered all e',
        )
        refl

  -- For a tree in order whose column stores are referenced, with block numbers that do not reach the
  -- greatest number of their type, a forward scan returns the column store of every node, once and in
  -- order, and then none; when it has ended, all reference counters are what they were.
  pub visit-nodes_of :
      (t : Tree) (h : Heap C)
      → IsOrdered h t
      → AllOf (Referenced h) (nodes_of t)
      → visit (suc (length (nodes_of t))) t none h ≡ done (map (λ n. n.tcs) (nodes_of t), h)
  unfolding visit
  visit-nodes_of t h ordered all = from_start (nodes_of t) refl
    where
      from_start :
          (l : List Node)
          → nodes_of t ≡ l
          → visit (suc (length l)) t none h ≡ done (map (λ n. n.tcs) l, h)
      from_start [] e = rw (next-start t h ordered all, e) refl
      from_start (n ∷ l) e =
          rw (next-start t h ordered all, e, visit-after t h [] n l ordered all e) refl
