-- ===== src/Reorder/Renaming.antt =====
-- The last parallel loop of `sort_by_degree` renames both ends of every edge.
use graph_benchmark.Base.{
  range_from, range_from-distinct, range_from-listed, ℕ, zero, suc, ◌+◌, ◌-◌, ◌≡◌, ◌≢◌, ◌<◌, ◌≤◌,
  refl, sym, ap, ◌∙◌, List, [], ◌∷◌, map, arith, get_or, set, length, length-set, length-map,
  get_or-set_self, get_or-set_ne, eq_of_get_or, All,
}
use graph_benchmark.Graph.{Edge}
use graph_benchmark.Parallel.{parallel_for}
use graph_benchmark.Parallel.Rule.{parallel_for-Ended, advance_spent}
use graph_benchmark.Parallel.Owner.{Owns, parallel_for-Owned, All-index}
use graph_benchmark.Reorder.{
  Relabel, relabel_src, relabel_dst, relabelled, blank, relabel_step, relabel_budget, relabelers,
  relabel,
}

abbrev index : Relabel → ℕ
index (relabel_src i) = i
index (relabel_dst i) = i
index (relabelled i) = i

-- An edge with both ends renamed.
abbrev pub renamed : List ℕ → Edge → Edge
renamed mapping e = record { src = get_or mapping e.src 0; dst = get_or mapping e.dst 0 }

module _ (mapping : List ℕ) (edges0 : List Edge) where
  -- An edge with its first end renamed.
  abbrev half : Edge → Edge
  half e = record e { src = get_or mapping e.src 0 }

  abbrev old : ℕ → Edge
  old i = get_or edges0 i blank

  abbrev IsSized : List Edge → Type 0
  IsSized edges = length edges ≡ length edges0

  abbrev Own : List Edge → Relabel → Type 0
  Own edges (relabel_src i) = (i < length edges0) × (get_or edges i blank ≡ old i)
  Own edges (relabel_dst i) = (i < length edges0) × (get_or edges i blank ≡ half (old i))
  Own edges (relabelled i) = (i < length edges0) × (get_or edges i blank ≡ renamed mapping (old i))

  same : (t : Relabel) (m : List Edge) → index (relabel_step mapping t m).0 ≡ index t
  unfolding relabel_step
  same (relabel_src i) m = refl
  same (relabel_dst i) m = refl
  same (relabelled i) m = refl

  sized : (t : Relabel) (m : List Edge) → IsSized m → Own m t → IsSized (relabel_step mapping t m).1
  unfolding relabel_step
  sized (relabel_src i) m v o = length-set m i (half (get_or m i blank)) ∙ v
  sized (relabel_dst i) m v o = length-set m i _ ∙ v
  sized (relabelled i) m v o = v

  own :
      (t : Relabel) (m : List Edge)
      → IsSized m
      → Own m t
      → Own (relabel_step mapping t m).1 (relabel_step mapping t m).0
  unfolding relabel_step
  own (relabel_src i) m v o = (
    o.0,
    get_or-set_self m i (half (get_or m i blank)) blank (omega (arith, v, o.0)) ∙ ap half o.1,
  )
  own (relabel_dst i) m v o = (
    o.0,
    get_or-set_self m i _ blank (omega (arith, v, o.0))
        ∙ ap (λ (e : Edge). record e { dst = get_or mapping e.dst 0 }) o.1,
  )
  own (relabelled i) m v o = o

  -- A write to another cell leaves the edge.
  carry :
      (u : Relabel) (m : List Edge) (i : ℕ) (e : Edge) → index u ≢ i → Own m u → Own (set m i e) u
  carry (relabel_src j) m i e ne o = (o.0, get_or-set_ne m i j e blank (λ q. ne (sym q)) ∙ o.1)
  carry (relabel_dst j) m i e ne o = (o.0, get_or-set_ne m i j e blank (λ q. ne (sym q)) ∙ o.1)
  carry (relabelled j) m i e ne o = (o.0, get_or-set_ne m i j e blank (λ q. ne (sym q)) ∙ o.1)

  other :
      (t u : Relabel) (m : List Edge)
      → IsSized m
      → index u ≢ index t
      → Own m t
      → Own m u
      → Own (relabel_step mapping t m).1 u
  unfolding relabel_step
  other (relabel_src i) u m v ne o p = carry u m i (half (get_or m i blank)) ne p
  other (relabel_dst i) u m v ne o p = carry u m i _ ne p
  other (relabelled i) u m v ne o p = p

  laws : Owns (relabel_step mapping) index IsSized Own
  laws = record { same = same; valid = sized; own = own; other = other }

  relabelers-index : (i k : ℕ) → map index (relabelers i k) ≡ range_from i k
  unfolding relabelers
  relabelers-index i zero = refl
  relabelers-index i (suc k) = ap (◌∷◌ i) (relabelers-index (i + 1) k)

  relabelers-Own : (i k : ℕ) → i + k ≤ length edges0 → All (Own edges0) (relabelers i k)
  unfolding relabelers
  relabelers-Own i zero h = tt
  relabelers-Own i (suc k) h = ((omega arith, refl), relabelers-Own (i + 1) k (omega arith))

  budget-falls :
      (t : Relabel) (m : List Edge)
      → relabel_budget (relabel_step mapping t m).0 ≤ relabel_budget t - 1
  unfolding relabel_step
  budget-falls (relabel_src i) m = omega arith
  budget-falls (relabel_dst i) m = omega arith
  budget-falls (relabelled i) m = omega arith

  abbrev Renamed : List Edge → ℕ → Type 0
  Renamed m i = get_or m i blank ≡ renamed mapping (old i)

  Renamed-of :
      (m : List Edge) (ts : List Relabel)
      → All (λ t. relabel_budget t ≡ 0) ts
      → All (Own m) ts
      → All (λ t. Renamed m (index t)) ts
  Renamed-of m [] e o = tt
  Renamed-of m (relabel_src i ∷ ts) e o = absurd (omega arith)
  Renamed-of m (relabel_dst i ∷ ts) e o = absurd (omega arith)
  Renamed-of m (relabelled i ∷ ts) e o = (o.0.1, Renamed-of m ts e.1 o.1)

get_or-map :
    (f : Edge → Edge) (xs : List Edge) (i : ℕ)
    → i < length xs
    → get_or (map f xs) i blank ≡ f (get_or xs i blank)
get_or-map f [] i lt = absurd (omega arith)
get_or-map f (x ∷ xs) zero lt = refl
get_or-map f (x ∷ xs) (suc i) lt = get_or-map f xs i (omega arith)

-- Whatever the interleaving, every edge ends renamed.
pub relabel_lem :
    (mapping schedule : List ℕ) (edges : List Edge)
    → relabel mapping schedule edges ≡ map (renamed mapping) edges
unfolding relabel
relabel_lem mapping schedule edges =
    let n = length edges in
    let step = relabel_step mapping in
    let w =
      parallel_for-Owned (laws mapping edges) relabel_budget schedule (range_from 0 n)
        (relabelers 0 n) edges
        (record {
          valid = refl;
          own = relabelers-Own mapping edges 0 n (omega arith);
          indexed = relabelers-index mapping edges 0 n;
          distinct = λ x. range_from-distinct x 0 n;
        }) in
    let r = parallel_for step relabel_budget schedule (relabelers 0 n) edges in
    let ended =
      parallel_for-Ended step relabel_budget (λ t. relabel_budget t ≡ 0)
        (advance_spent step relabel_budget (budget-falls mapping edges)) schedule (relabelers 0 n)
        edges in
    eq_of_get_or r.1 (map (renamed mapping) edges) blank
      (w.valid ∙ sym (length-map (renamed mapping) edges))
      (λ x lt.
        let inside : x < n = omega (arith, w.valid) in
        All-index index (Renamed mapping edges r.1) r.0
          (Renamed-of mapping edges r.1 r.0 ended w.own) x
          (rw w.indexed (range_from-listed x 0 n (omega arith) (omega arith)))
        ∙ sym (get_or-map (renamed mapping) edges x inside))
