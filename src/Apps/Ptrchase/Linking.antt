-- ===== src/Apps/Ptrchase/Linking.antt =====
-- The nodes that `init_run` links.
use mathlib.Core.Path.{subst}
use msh.Prelude.{
  ℕ, zero, suc, ◌+◌, ◌-◌, ◌<◌, ◌≡◌, inl, inr, refl, ap, ◌∙◌, sym, ◌==◌, ==→eq, true, false, update,
  update_self, update_ne, some, Bool-cases, arith,
}
use msh.Apps.Ptrchase.{Nodes, link_nodes}
use msh.Apps.Ptrchase.Cycle.{after, IsCycle}

pub after-shift : (out : ℕ → ℕ) (m v : ℕ) → after out m (out v) ≡ out (after out m v)
unfolding after
after-shift out zero v = refl
after-shift out (suc m) v = ap out (after-shift out m v)

pub after-add : (out : ℕ → ℕ) (m k v : ℕ) → after out (m + k) v ≡ after out m (after out k v)
unfolding after
after-add out zero k v = ap (λ i. after out i v) (omega arith)
after-add out (suc m) k v =
    ap (λ i. after out i v) {y = suc (m + k)} (omega arith) ∙ ap out (after-add out m k v)

module _ {n : ℕ} {out : ℕ → ℕ} (c : IsCycle n out) (base : ℕ) where
  -- The first `k` nodes of the cycle are linked.
  Linked : ℕ → Nodes → Type 0
  Linked k nodes =
      (j : ℕ) → j < k → nodes (base + after out j 0) ≡ some (base + out (after out j 0))

  Linked-suc :
      (k : ℕ) (nodes : Nodes)
      → k < n
      → Linked k nodes
      → Linked (suc k) (update nodes (base + after out k 0) (some (base + out (after out k 0))))
  unfolding Linked
  Linked-suc k nodes hk linked j h = elim (Bool-cases (j == k)) [
    | inl here ↦
        subst
          (λ i.
            update nodes (base + after out k 0) (some (base + out (after out k 0)))
              (base + after out i 0)
            ≡ some (base + out (after out i 0)))
          (sym (==→eq j k here))
          (update_self nodes (base + after out k 0) (some (base + out (after out k 0))))
    | inr there ↦
        update_ne nodes (some (base + out (after out k 0)))
          (λ e. c.distinct j k (ground arith) hk (omega (arith, e)))
        ∙ linked j (ground arith)
  ]

  first : 0 < n → after out 0 0 ≡ 0
  unfolding after
  first h = refl

  -- Where the cycle ends.
  pub last : (k : ℕ) → suc k ≡ n → out (after out k 0) ≡ 0
  unfolding after
  last k e = ap (λ i. after out i 0) e ∙ c.closes

  not_before : (k : ℕ) → k < n → (out (after out k 0) == 0) ≡ true → suc k ≡ n
  unfolding after
  not_before k h end = elim (Bool-cases (suc k == n)) [
    | inl e ↦ ground arith
    | inr e ↦ absurd (
        c.distinct 0 (suc k) (omega arith) (ground arith) (sym (==→eq (out (after out k 0)) 0 end)))
  ]

  link_ends :
      (m cur : ℕ) (nodes : Nodes)
      → (out cur == 0) ≡ true
      → link_nodes (suc m) base out cur nodes
        ≡ some (update nodes (base + cur) (some (base + out cur)))
  unfolding link_nodes
  link_ends m cur nodes e = rw e refl

  link_goes_on :
      (m cur : ℕ) (nodes : Nodes)
      → (out cur == 0) ≡ false
      → link_nodes (suc m) base out cur nodes
        ≡ link_nodes m base out (out cur) (update nodes (base + cur) (some (base + out cur)))
  unfolding link_nodes
  link_goes_on m cur nodes e = rw e refl

  -- The do-while loop ends when the cycle does.
  link_nodes_lem :
      (m k : ℕ) (nodes : Nodes)
      → k + suc m ≡ n
      → Linked k nodes
      → (nodes' : Nodes) × (link_nodes (suc m) base out (after out k 0) nodes ≡ some nodes')
        × Linked n nodes'
  unfolding after
  link_nodes_lem zero k nodes sum linked = (
    update nodes (base + after out k 0) (some (base + out (after out k 0))),
    link_ends zero (after out k 0) nodes (ground (arith, last k (omega arith))),
    subst (λ i. Linked i (update nodes (base + after out k 0) (some (base + out (after out k 0)))))
        (omega arith) (Linked-suc k nodes (omega arith) linked),
  )
  link_nodes_lem (suc m) k nodes sum linked = elim (Bool-cases (out (after out k 0) == 0)) [
    | inl end ↦ (
      update nodes (base + after out k 0) (some (base + out (after out k 0))),
      link_ends (suc m) (after out k 0) nodes end,
      subst
          (λ i. Linked i (update nodes (base + after out k 0) (some (base + out (after out k 0)))))
          (not_before k (omega arith) end) (Linked-suc k nodes (omega arith) linked),
    )
    | inr more ↦
        let (nodes', ran, all) =
          link_nodes_lem m (suc k)
            (update nodes (base + after out k 0) (some (base + out (after out k 0)))) (omega arith)
            (Linked-suc k nodes (omega arith) linked) in
        (nodes', link_goes_on (suc m) (after out k 0) nodes more ∙ ran, all)
  ]

  -- All nodes are linked.
  pub link_nodes-all :
      (nodes : Nodes)
      → 0 < n
      → (nodes' : Nodes) × (link_nodes n base out 0 nodes ≡ some nodes')
        × ((v : ℕ) → v < n → nodes' (base + v) ≡ some (base + out v))
  unfolding after Linked
  link_nodes-all nodes h =
      let (m, e) : (m : ℕ) × (0 + suc m ≡ n) = (n - 1, omega arith) in
      let (nodes', ran, all) = link_nodes_lem m 0 nodes e (λ j lt. absurd (omega arith)) in
      (
        nodes',
        subst (λ i. link_nodes i base out 0 nodes ≡ some nodes') (omega arith) ran,
        λ v lt.
            let (k, hk, at) = c.covers v lt in
            subst (λ i. nodes' (base + i) ≡ some (base + out i)) at (all k hk),
      )
