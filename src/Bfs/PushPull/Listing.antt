-- ===== src/Bfs/PushPull/Listing.antt =====
-- The parallel loop of `bfs_pushpull` that fills `in_frontier` sets exactly the cells of the frontier.
use graph_benchmark.Base.{
  ℕ, ◌-◌, ◌≡◌, ◌≢◌, ◌<◌, ◌≤◌, refl, sym, ◌∙◌, ◌⊎◌, inl, inr, List, [], ◌∷◌, ◌++◌, map, arith, Bool,
  true, false, get_or, set, length, length-set, get_or-set_self, get_or-set_ne, total,
  total-replace, total-eq-zero, All, All-map, All-append, All-split, count, if◌then◌else◌, ◌==◌,
  ℕ_discrete,
}
use mathlib.Core.Bool.{false≢true}
use graph_benchmark.Parallel.{Keeps, parallel_for}
use graph_benchmark.Parallel.Rule.{parallel_for_inv, parallel_for-Ended, advance_spent}
use graph_benchmark.Bfs.PushPull.{Enter, entering, entered, enter_step, enter_budget, enter_all}

abbrev pending : ℕ → Enter → ℕ
pending x (entering node) = if x == node then 1 else 0
pending x (entered node) = 0

abbrev Ended : Enter → Type 0
Ended t = enter_budget t ≡ 0

enter_budget-falls :
    (t : Enter) (a : List Bool) → enter_budget (enter_step t a).0 ≤ enter_budget t - 1
unfolding enter_step
enter_budget-falls (entering node) a = omega arith
enter_budget-falls (entered node) a = omega arith

module _ (n : ℕ) (frontier : List ℕ) (nodes : (x : ℕ) → 0 < count x frontier → x < n) where
  abbrev IsEntering : Enter → Type 0
  IsEntering (entering node) = 0 < count node frontier
  IsEntering (entered node) = Unit

  record Filling (ts : List Enter) (a : List Bool) : Type 0 where
    size : length a ≡ n
    only : (x : ℕ) → get_or a x false ≡ true → 0 < count x frontier
    each : (x : ℕ) → 0 < count x frontier → (get_or a x false ≡ true) ⊎ (0 < total (pending x) ts)
    at : All IsEntering ts

  module _ (pre post : List Enter) (a : List Bool) (node : ℕ)
      (f : Filling (pre ++ entering node ∷ post) a) where
    listed : 0 < count node frontier
    listed = (All-split IsEntering pre (entering node ∷ post) f.at).1.0

    here : get_or (set a node true) node false ≡ true
    here = get_or-set_self a node true false (omega (arith, f.size, nodes node listed))

    other : (x : ℕ) → x ≢ node → get_or (set a node true) x false ≡ get_or a x false
    other x ne = get_or-set_ne a node x true false (λ e. ne (sym e))

    only' : (x : ℕ) → get_or (set a node true) x false ≡ true → 0 < count x frontier
    only' x e = elim (ℕ_discrete x node) [
      | yes same ↦ rw same listed
      | no ne ↦ f.only x (sym (other x ne) ∙ e)
    ]

    each' :
        (x : ℕ)
        → 0 < count x frontier
        → (get_or (set a node true) x false ≡ true)
          ⊎ (0 < total (pending x) (pre ++ entered node ∷ post))
    each' x h = elim (ℕ_discrete x node) [
      | yes same ↦ inl (rw same here)
      | no ne ↦ elim (f.each x h) [
        | inl set_already ↦ inl (other x ne ∙ set_already)
        | inr p ↦
            inr
              (ground (arith, p, total-replace (pending x) pre (entering node) (entered node) post))
      ]
    ]

    enter-Filling : Filling (pre ++ entered node ∷ post) (set a node true)
    enter-Filling =
        let (before, rest) = All-split IsEntering pre (entering node ∷ post) f.at in
        record {
          size = length-set a node true ∙ f.size;
          only = only';
          each = each';
          at = All-append IsEntering pre (entered node ∷ post) before (tt, rest.1);
        }

  Filling-keep : Keeps enter_step Filling
  unfolding enter_step
  Filling-keep pre (entering node) post a f = enter-Filling pre post a node f
  Filling-keep pre (entered node) post a f = f

  tasks-IsEntering :
      (l : List ℕ)
      → ((x : ℕ) → 0 < count x l → 0 < count x frontier)
      → All IsEntering (map entering l)
  tasks-IsEntering [] within = tt
  tasks-IsEntering (u ∷ l) within =
      (within u (ground arith), tasks-IsEntering l (λ x h. within x (omega arith)))

  pending-tasks : (x : ℕ) (l : List ℕ) → total (pending x) (map entering l) ≡ count x l
  pending-tasks x [] = refl
  pending-tasks x (u ∷ l) = omega (arith, pending-tasks x l)

  module _ (schedule : List ℕ) (cells : List Bool) (sized : length cells ≡ n)
      (clear : (x : ℕ) → get_or cells x false ≡ false) where
    abbrev looped : List Enter × List Bool
    looped = parallel_for enter_step enter_budget schedule (map entering frontier) cells

    filled : Filling looped.0 looped.1
    filled =
        parallel_for_inv enter_step Filling Filling-keep enter_budget schedule
          (map entering frontier) cells
          (record {
            size = sized;
            only = λ x e. absurd (false≢true (sym (clear x) ∙ e));
            each = λ x h. inr (omega (arith, pending-tasks x frontier));
            at = tasks-IsEntering frontier (λ x h. h);
          })

    ended : All Ended looped.0
    ended =
        parallel_for-Ended enter_step enter_budget Ended
          (advance_spent enter_step enter_budget enter_budget-falls) schedule
          (map entering frontier) cells

    no_pending : (x : ℕ) → total (pending x) looped.0 ≡ 0
    no_pending x =
        total-eq-zero (pending x) looped.0
          (All-map Ended (λ t. pending x t ≡ 0) idle looped.0 ended)
      where
        idle : (t : Enter) → Ended t → pending x t ≡ 0
        idle (entering node) e = absurd (omega arith)
        idle (entered node) e = refl

    -- On cleared cells the loop leaves `true` exactly at the nodes of the frontier.
    pub enter_all-listed :
        (x : ℕ)
        → (get_or (enter_all schedule frontier cells) x false ≡ true → 0 < count x frontier)
          × (0 < count x frontier → get_or (enter_all schedule frontier cells) x false ≡ true)
    unfolding enter_all
    enter_all-listed x = (
      filled.only x,
      λ h. elim (filled.each x h) [ inl e ↦ e | inr p ↦ absurd (omega (arith, p, no_pending x)) ],
    )
