-- ===== src/Plan/Runs/Flat.antt =====
-- Flattening a plan node changes none of its runs.
use fedeway.Prelude.{
  List, [], ◌++◌, append-nil, append_assoc, some, some_eq, ◌≡◌, refl, sym, ap, ◌∙◌, ◌↔◌,
}
use fedeway.Plan.{ResponsePath, PlanNode, sequence, parallel, Nodes, no_nodes, node, ◌<+>◌}
use fedeway.Plan.Wrap.{flat_sequence, flat_parallel, flat_wrap_sequence, flat_wrap_parallel}
use fedeway.Plan.Runs.{
  Event, Runs, run_sequence, run_parallel, RunsInOrder, in_order_done, in_order, RunsTogether,
  together_done, together,
}
use fedeway.Plan.Runs.Shuffle.{
  Interleaves, Interleaves-right_only, Interleaves-left_only, Interleaves-nil,
  Interleaves-nil_right, Interleaves-assoc, Interleaves-assoc_left,
}

module _ {path : ResponsePath} where
  in_order-append :
      (ms ns : Nodes) {t u v : List Event}
      → RunsInOrder path ms t
      → RunsInOrder path ns u
      → v ≡ t ++ u
      → RunsInOrder path (ms <+> ns) v
  in_order-append no_nodes ns (in_order_done e) r h = rw (h, e) r
  in_order-append (node m ms) ns {u = w} (in_order {t = t} {u = u} a b e) r h =
      in_order a (in_order-append ms ns b r refl) (h ∙ ap (λ l. l ++ w) e ∙ append_assoc t u w)

  in_order-split :
      (ms ns : Nodes) {v : List Event}
      → RunsInOrder path (ms <+> ns) v
      → (t u : List Event) × RunsInOrder path ms t × RunsInOrder path ns u × (v ≡ t ++ u)
  in_order-split no_nodes ns {v} r = ([], v, in_order_done refl, r, refl)
  in_order-split (node m ms) ns (in_order {t = t} a b e) =
      let (x, y, c, d, eq) = in_order-split ms ns b in
      (t ++ x, y, in_order a c refl, d, e ∙ ap (λ w. t ++ w) eq ∙ sym (append_assoc t x y))

  together-append :
      (ms ns : Nodes) {t u v : List Event}
      → RunsTogether path ms t
      → RunsTogether path ns u
      → Interleaves t u v
      → RunsTogether path (ms <+> ns) v
  together-append no_nodes ns (together_done e) r h = rw (← Interleaves-nil (rw e at h)) r
  together-append (node m ms) ns (together a b i) r h =
      let (rest, j, k) = Interleaves-assoc h i in together a (together-append ms ns b r j) k

  together-split :
      (ms ns : Nodes) {v : List Event}
      → RunsTogether path (ms <+> ns) v
      → (t : List Event) × (u : List Event) × RunsTogether path ms t
        × RunsTogether path ns u
        × Interleaves t u v
  together-split no_nodes ns {v} r = ([], v, together_done refl, r, Interleaves-right_only v)
  together-split (node m ms) ns (together a b i) =
      let (t, u, c, d, j) = together-split ms ns b in
      let (left, k, l) = Interleaves-assoc_left i j in (left, u, together a c k, d, l)

  flat_sequence-runs :
      (ns : Nodes) {t : List Event} → RunsInOrder path ns t → RunsInOrder path (flat_sequence ns) t
  unfolding flat_sequence
  flat_sequence-runs no_nodes r = r
  flat_sequence-runs (node (sequence ms) ns) (in_order (run_sequence a) b e) =
      in_order-append ms (flat_sequence ns) a (flat_sequence-runs ns b) e
  flat_sequence-runs (node n ns) (in_order a b e) = in_order a (flat_sequence-runs ns b) e

  runs-flat_sequence :
      (ns : Nodes) {t : List Event} → RunsInOrder path (flat_sequence ns) t → RunsInOrder path ns t
  unfolding flat_sequence
  runs-flat_sequence no_nodes r = r
  runs-flat_sequence (node (sequence ms) ns) r =
      let (t, u, a, b, e) = in_order-split ms (flat_sequence ns) r in
      in_order (run_sequence a) (runs-flat_sequence ns b) e
  runs-flat_sequence (node n ns) (in_order a b e) = in_order a (runs-flat_sequence ns b) e

  flat_parallel-runs :
      (ns : Nodes) {t : List Event}
      → RunsTogether path ns t
      → RunsTogether path (flat_parallel ns) t
  unfolding flat_parallel
  flat_parallel-runs no_nodes r = r
  flat_parallel-runs (node (parallel ms) ns) (together (run_parallel a) b i) =
      together-append ms (flat_parallel ns) a (flat_parallel-runs ns b) i
  flat_parallel-runs (node n ns) (together a b i) = together a (flat_parallel-runs ns b) i

  runs-flat_parallel :
      (ns : Nodes) {t : List Event}
      → RunsTogether path (flat_parallel ns) t
      → RunsTogether path ns t
  unfolding flat_parallel
  runs-flat_parallel no_nodes r = r
  runs-flat_parallel (node (parallel ms) ns) r =
      let (t, u, a, b, i) = together-split ms (flat_parallel ns) r in
      together (run_parallel a) (runs-flat_parallel ns b) i
  runs-flat_parallel (node n ns) (together a b i) = together a (runs-flat_parallel ns b) i

  one_in_order :
      {n : PlanNode} {t : List Event} → RunsInOrder path (node n no_nodes) t → Runs path n t
  one_in_order (in_order {t = t} a (in_order_done e) h) = rw (h, e, append-nil t) a

  one_together :
      {n : PlanNode} {t : List Event} → RunsTogether path (node n no_nodes) t → Runs path n t
  one_together (together a (together_done e) i) = rw (← Interleaves-nil_right (rw e at i)) a

  run_sequence_inv :
      {ns : Nodes} {t : List Event} → Runs path (sequence ns) t → RunsInOrder path ns t
  run_sequence_inv (run_sequence r) = r

  run_parallel_inv :
      {ns : Nodes} {t : List Event} → Runs path (parallel ns) t → RunsTogether path ns t
  run_parallel_inv (run_parallel r) = r

-- The node that `flatWrapSequence` makes of some nodes has exactly the runs of these nodes, one
-- after the other, at every path.
pub flat_wrap_sequence-Runs :
    (ns : Nodes) (n : PlanNode) (path : ResponsePath) (t : List Event)
    → flat_wrap_sequence ns ≡ some n
    → Runs path n t ↔ RunsInOrder path ns t
unfolding flat_wrap_sequence
flat_wrap_sequence-Runs no_nodes n path t h = cc
flat_wrap_sequence-Runs (node m no_nodes) n path t h =
    rw (← some_eq h) (λ r. in_order r (in_order_done refl) (sym (append-nil t)), one_in_order)
flat_wrap_sequence-Runs (node m (node k ns)) n path t h = rw (← some_eq h) (
  λ r. runs-flat_sequence (node m (node k ns)) (run_sequence_inv r),
  λ r. run_sequence (flat_sequence-runs (node m (node k ns)) r),
)

-- The node that `flatWrapParallel` makes of some nodes has exactly the interleavings of the runs
-- of these nodes, at every path.
pub flat_wrap_parallel-Runs :
    (ns : Nodes) (n : PlanNode) (path : ResponsePath) (t : List Event)
    → flat_wrap_parallel ns ≡ some n
    → Runs path n t ↔ RunsTogether path ns t
unfolding flat_wrap_parallel
flat_wrap_parallel-Runs no_nodes n path t h = cc
flat_wrap_parallel-Runs (node m no_nodes) n path t h =
    rw (← some_eq h) (λ r. together r (together_done refl) (Interleaves-left_only t), one_together)
flat_wrap_parallel-Runs (node m (node k ns)) n path t h = rw (← some_eq h) (
  λ r. runs-flat_parallel (node m (node k ns)) (run_parallel_inv r),
  λ r. run_parallel (flat_parallel-runs (node m (node k ns)) r),
)
