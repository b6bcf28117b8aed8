-- ===== src/Loader/Filling/Claim.antt =====
-- A claim (`__atomic_fetch_add` on a counter of `create_edges`) keeps the invariant of the filling.
use graph_benchmark.Base.{
  ℕ, suc, ◌+◌, ◌≡◌, ◌<◌, ◌^◌, ap, sym, subst, ◌∙◌, ◌⊎◌, inl, inr, List, [], ◌∷◌, ◌++◌, arith,
  get_or, ◌≢◌, set, length-set, get_or-set_self, get_or-set_ne, u32, total, total-append,
  total-replace, All, All-append, All-split, All-map, count, segment, segment-set_out,
  segment-set_end, dec_lt, ℕ_discrete,
}
use graph_benchmark.Graph.{Edge, degree, preceding, copies}
use graph_benchmark.Graph.Counting.{preceding-suc, preceding_mono}
use graph_benchmark.Loader.Filling.{
  View, todo, storing, over, Half, claims, claims_for, place, stores_at, Claimed, Filling, row_end,
  row_before, rows_apart,
}

module _ {n : ℕ} {edges : List Edge} (narrow : (v : ℕ) → v < n → degree edges v < 2 ^ 32) where
  module _ (pre post : List View) (h : Half) (virt : List ℕ) where
    module _ (e : Edge) (f : Filling n edges virt (pre ++ todo e ∷ post) h) where
      abbrev o : ℕ
      o = get_or h.cursor e.src 0

      abbrev cursor' : List ℕ
      cursor' = set h.cursor e.src (u32 (o + 1))

      abbrev virt' : List ℕ
      virt' = set virt (place n edges e o) e.dst

      src_lt : e.src < n
      src_lt = (All-split (Claimed n edges h.cursor virt) pre (todo e ∷ post) f.claimed).1.0

      o_lt : o < degree edges e.src
      o_lt = ground (arith, f.room e.src src_lt, total-append (claims e.src) pre (todo e ∷ post))

      cursor_self : get_or cursor' e.src 0 ≡ suc o
      cursor_self =
          get_or-set_self h.cursor e.src (u32 (o + 1)) 0 (omega (arith, f.nodes, src_lt))
          ∙ omega (arith, o_lt, narrow e.src src_lt)

      cursor_other : (v : ℕ) → v ≢ e.src → get_or cursor' v 0 ≡ get_or h.cursor v 0
      cursor_other v ne = get_or-set_ne h.cursor e.src v (u32 (o + 1)) 0 (λ p. ne (sym p))

      claim_room :
          (v : ℕ)
          → v < n
          → get_or cursor' v 0 + total (claims v) (pre ++ storing e o ∷ post) ≡ degree edges v
      claim_room v lt = elim (ℕ_discrete v e.src) [
        | yes p ↦ rw p (
            ground (
              arith,
              cursor_self,
              f.room e.src src_lt,
              total-replace (claims e.src) pre (todo e) (storing e o) post,
            ))
        | no p ↦ ground (
          arith,
          cursor_other v p,
          f.room v lt,
          total-replace (claims v) pre (todo e) (storing e o) post,
        )
      ]

      row_self :
          (x : ℕ)
          → count x (segment virt' (preceding edges e.src) (suc o))
            ≡ count x (segment virt (preceding edges e.src) o) + count x (e.dst ∷ [])
      row_self x =
          ap (count x) (
            segment-set_end (preceding edges e.src) o virt e.dst
              (omega (arith, row_end edges e.src o o_lt, f.virt_size)))
          ∙ total-append _ (segment virt (preceding edges e.src) o) (e.dst ∷ [])

      row_other :
          (v : ℕ)
          → v < n
          → v ≢ e.src
          → segment virt' (preceding edges v) (get_or h.cursor v 0)
            ≡ segment virt (preceding edges v) (get_or h.cursor v 0)
      row_other v lt ne =
          segment-set_out (preceding edges v) (get_or h.cursor v 0) (place n edges e o) virt e.dst
            (elim (dec_lt v e.src) [
              | yes below ↦ inr (
                  omega
                    (arith, f.room v lt, preceding-suc edges v, preceding_mono edges (v + 1) e.src))
              | no above ↦ inl (omega (arith, row_before edges e.src v o 0 (omega arith) o_lt))
            ])

      claim_rows :
          (v x : ℕ)
          → v < n
          → count x (segment virt' (preceding edges v) (get_or cursor' v 0))
              + total (claims_for v x) (pre ++ storing e o ∷ post)
            ≡ copies edges v x
      claim_rows v x lt = elim (ℕ_discrete v e.src) [
        | yes p ↦
            rw (p, cursor_self)
              (ground (
                arith,
                row_self x,
                f.rows e.src x src_lt,
                total-replace (claims_for e.src x) pre (todo e) (storing e o) post,
              ))
        | no p ↦
            rw (cursor_other v p, row_other v lt p)
              (ground (
                arith,
                f.rows v x lt,
                total-replace (claims_for v x) pre (todo e) (storing e o) post,
              ))
      ]

      kept_self :
          (e' : Edge) (o' : ℕ)
          → e'.src ≡ e.src
          → Claimed n edges h.cursor virt (storing e' o')
          → Claimed n edges cursor' virt' (storing e' o')
      kept_self e' o' p c =
          let below : o' < o = subst (λ v. o' < get_or h.cursor v 0) p c.1 in
          let apart : place n edges e o ≢ place n edges e' o' =
            λ q. omega (arith, ap (preceding edges) p) in
          (
            c.0,
            rw (p, cursor_self) (omega arith),
            get_or-set_ne virt (place n edges e o) (place n edges e' o') e.dst 0 apart ∙ c.2,
          )

      kept_other :
          (e' : Edge) (o' : ℕ)
          → e'.src ≢ e.src
          → Claimed n edges h.cursor virt (storing e' o')
          → Claimed n edges cursor' virt' (storing e' o')
      kept_other e' o' ne c = (
        c.0,
        rw (cursor_other e'.src ne) c.1,
        get_or-set_ne virt (place n edges e o) (place n edges e' o') e.dst 0 (
              rows_apart edges e.src e'.src o o' (λ q. ne (sym q)) o_lt
                (omega (arith, c.1, f.room e'.src c.0)))
            ∙ c.2,
      )

      kept : (t : View) → Claimed n edges h.cursor virt t → Claimed n edges cursor' virt' t
      kept (todo e') c = c
      kept (storing e' o') c = elim (ℕ_discrete e'.src e.src) [
        | yes p ↦ kept_self e' o' p c
        | no p ↦ kept_other e' o' p c
      ]
      kept over c = tt

      claim-Claimed : All (Claimed n edges cursor' virt') (pre ++ storing e o ∷ post)
      claim-Claimed =
          let (before, rest) =
            All-split (Claimed n edges h.cursor virt) pre (todo e ∷ post) f.claimed in
          let new =
            get_or-set_self virt (place n edges e o) e.dst 0
              (omega (arith, row_end edges e.src o o_lt, f.virt_size)) in
          All-append (Claimed n edges cursor' virt') pre (storing e o ∷ post)
            (All-map _ _ kept pre before)
            ((src_lt, omega (arith, cursor_self), new), All-map _ _ kept post rest.1)

      claim_agree :
          (p : ℕ)
          → (get_or h.slots p 0 ≡ get_or virt' p 0)
            ⊎ (0 < total (stores_at n edges p) (pre ++ storing e o ∷ post))
      claim_agree p = ground (
        arith,
        f.agree p,
        get_or-set_ne virt (place n edges e o) p e.dst 0,
        total-replace (stores_at n edges p) pre (todo e) (storing e o) post,
      )

      -- A claim keeps the invariant, with its store made at once in `virt`.
      pub claim-Filling :
          Filling n edges virt' (pre ++ storing e o ∷ post) (record h { cursor = cursor' })
      claim-Filling = record {
        nodes = length-set h.cursor e.src (u32 (o + 1)) ∙ f.nodes;
        virt_size = length-set virt (place n edges e o) e.dst ∙ f.virt_size;
        slots_size = f.slots_size;
        room = claim_room;
        rows = claim_rows;
        claimed = claim-Claimed;
        agree = claim_agree;
      }
