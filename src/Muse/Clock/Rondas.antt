-- ===== src/Muse/Clock/Rondas.antt =====
-- The inner loop of `dame_nro_frame_reemplazado`: a victim, or pages that are passed.
use tp_sistemas_operativos.Base.{
  ℕ, zero, suc, put, ◌+◌, ◌/◌, ◌<◌, ◌≤◌, ◌≡◌, ◌⊎◌, inl, inr, refl, ap, ◌∙◌, Bool, true, false, not,
  Option, none, some, List, arith, if◌then◌else◌, ==_refl, subst,
}
use tp_sistemas_operativos.Commons.{Ref, Lists}
use tp_sistemas_operativos.Comandos.{ok, pure, ◌>>◌}
use tp_sistemas_operativos.Comandos.Eval.{bind-ok, then-ok, then-modify, if-true, if-false}
use tp_sistemas_operativos.Muse.State.{Page, Segment, Muse, mutex_clock}
use tp_sistemas_operativos.Muse.Run.{M, load_page, load_segment, unlock}
use tp_sistemas_operativos.Muse.Run.Locks.{soltado, load_page-ok, load_segment-ok, update_page-ok}
use tp_sistemas_operativos.Muse.Frames.{primer_flag}
use tp_sistemas_operativos.Muse.Clock.{
  se_hace_la_vistima, Paso, paso_1, paso_2, es_victima, elegir, pasar, recorrer_paginas,
}
use tp_sistemas_operativos.Muse.Clock.Victima.{Libres, vistima-ok, tras_vistima}
use tp_sistemas_operativos.Muse.Clock.Visita.{
  Sigue, TodasSiguen, Pasada, Sigue-refl, Sigue-trans, Sigue-put, Pasada-Sigue, Pasada-antes,
  Pasada-misma,
}

-- A search from `s` ends with a frame, or with none once it has passed pages.
abbrev pub Resultado : M (Option ℕ) → Muse → ((Ref → Option Page) → Type 0) → Type 0
Resultado c s Post =
    ((n : ℕ) × (t : Muse) × (c s ≡ ok (some n) t))
    ⊎ ((g : Ref → Option Page) × (c s ≡ ok none (record s { pages = g }))
        × TodasSiguen s.pages g
        × Post g)

-- A search that goes on with another once it has passed pages.
pub Resultado-tras :
    (c resto : M (Option ℕ)) (s : Muse) (f : Ref → Option Page)
    (Post Post' : (Ref → Option Page) → Type 0)
    → c s ≡ resto (record s { pages = f })
    → TodasSiguen s.pages f
    → ((g : Ref → Option Page) → TodasSiguen f g → Post' g → Post g)
    → Resultado resto (record s { pages = f }) Post'
    → Resultado c s Post
Resultado-tras c resto s f Post Post' e k h (inl r) = inl (r.0, r.1, e ∙ r.2)
Resultado-tras c resto s f Post Post' e k h (inr r) =
    inr (r.0, e ∙ r.1, λ q. Sigue-trans (s.pages q) (f q) (r.0 q) (k q) (r.2 q), h r.0 r.2 r.3)

module _ ⦃c : Lists⦄ where
  open c use {list_get, list_size}

  -- The pages of a table from number `j` on, `n` of them, are passed between `f` and `g`.
  abbrev pub Pasadas : Paso → List Ref → (Ref → Option Page) → (Ref → Option Page) → ℕ → ℕ → Type 0
  Pasadas paso tabla f g j n =
      (i : ℕ)
      → j ≤ i
      → i < j + n
      → (p : Page) → f (list_get tabla i) ≡ some p
      → Pasada paso p (g (list_get tabla i))

  mas_uno : (j i : ℕ) → j + (i + 1) ≡ j + 1 + i
  mas_uno j i = omega arith

  desde : (i j : ℕ) → i ≤ j → (i ≡ j) ⊎ (i + 1 ≤ j)
  desde i j h = omega arith

  pub Pasadas-suc :
      (paso : Paso) (tabla : List Ref) (f h g : Ref → Option Page) (j n : ℕ)
      → TodasSiguen f h
      → TodasSiguen h g
      → ((p : Page) → f (list_get tabla j) ≡ some p → Pasada paso p (h (list_get tabla j)))
      → Pasadas paso tabla h g (j + 1) n
      → Pasadas paso tabla f g j (suc n)
  Pasadas-suc paso tabla f h g j n fh hg aqui resto i a b p e = elim (desde j i a) [
    | inl q ↦
        Pasada-Sigue paso p (h (list_get tabla i)) (g (list_get tabla i))
          (subst (λ k. f (list_get tabla k) ≡ some p → Pasada paso p (h (list_get tabla k))) q
            (aqui p) e)
          (hg (list_get tabla i))
    | inr q ↦
        Pasada-antes paso p (f (list_get tabla i)) (h (list_get tabla i)) (g (list_get tabla i)) e
          (fh (list_get tabla i)) (resto i q (omega (arith, b)))
  ]

  pub elegir-ok :
      (pag : Ref) (p : Page) (j ns : ℕ) (s : Muse)
      → Libres s
      → s.pages pag ≡ some p
      → (n : ℕ) × (t : Muse) × (elegir pag j ns s ≡ ok (some n) t)
  unfolding elegir unlock pure
  elegir-ok pag p j ns s l e =
      let t : Muse =
        tras_vistima s pag p (primer_flag s.bitmap_swap_file 0 s.total_frame_num_swap) in
      let u : Muse = record t { segmento_clock = ns; pagina_clock = j } in
      (
        p.fr / s.page_size,
        soltado mutex_clock u,
        bind-ok (se_hace_la_vistima pag) _ s t (p.fr / s.page_size) (vistima-ok pag p s l e)
            ∙ then-modify _ _ t
            ∙ then-modify _ _ u,
      )

  -- What a round does to a page that it passes.
  pub pasar-ok :
      (paso : Paso) (pag : Ref) (p : Page) (s : Muse)
      → s.pages pag ≡ some p
      → es_victima paso p ≡ false
      → (g : Ref → Option Page) × (pasar paso pag s ≡ ok tt (record s { pages = g }))
        × TodasSiguen s.pages g
        × Pasada paso p (g pag)
  unfolding pasar pure
  pasar-ok paso_1 pag p s e v = (s.pages, refl, λ r. Sigue-refl (s.pages r), λ l. v)
  pasar-ok paso_2 pag p s e v = (
    put s.pages pag (some (record p { is_used = false })),
    update_page-ok pag (λ q. record q { is_used = false }) s p e,
    λ r. Sigue-put s.pages pag r p e,
    λ l.
        (v, ap (λ b. if b then some (record p { is_used = false }) else s.pages pag) (==_refl pag)),
  )

  -- The pages of a table, and those of the segments of a list, are there.
  abbrev pub Cargadas : List Ref → (Ref → Option Page) → Type 0
  Cargadas tabla f = (i : ℕ) → i < list_size tabla → (p : Page) × (f (list_get tabla i) ≡ some p)

  pub Cargadas-siguen :
      (tabla : List Ref) (f g : Ref → Option Page)
      → TodasSiguen f g
      → Cargadas tabla f
      → Cargadas tabla g
  Cargadas-siguen tabla f g k h i l =
      let p = h i l in
      elim (subst (λ o. Sigue o (g (list_get tabla i))) p.1 (k (list_get tabla i))) [
        | inl e ↦ (p.0, e)
        | inr e ↦ (record p.0 { is_used = false }, e)
      ]

  ausente : (paso : Paso) (p : Page) (o : Option Page) → p.is_present ≡ false → Pasada paso p o
  ausente paso_1 p o h = λ l. absurd (ground (arith, l, h))
  ausente paso_2 p o h = λ l. absurd (ground (arith, l, h))

  module _ (paso : Paso) (seg : Ref) (ns : ℕ) (x : Segment) where
    -- The visit of a page: it is passed over, chosen, or passed.
    abbrev presente : M (Option ℕ) → Ref → ℕ → Page → M (Option ℕ)
    presente resto pag j p =
        if es_victima paso p then elegir pag j ns else (do pasar paso pag; resto)

    abbrev visita : M (Option ℕ) → Ref → ℕ → Page → M (Option ℕ)
    visita resto pag j p = if not p.is_present then resto else presente resto pag j p

    module _ (resto : M (Option ℕ)) (j n : ℕ) (p : Page) (s : Muse) (l : Libres s)
        (e : s.pages (list_get x.page_table j) ≡ some p)
        (sigue : (f : Ref → Option Page)
          → TodasSiguen s.pages f
          → Resultado resto
              (record s { pages = f })
              (λ g. Pasadas paso x.page_table f g (j + 1) n)) where
      -- The page is passed, and the search goes on.
      Pasada-Resultado :
          (d : M (Option ℕ)) (f : Ref → Option Page)
          → d s ≡ resto (record s { pages = f })
          → TodasSiguen s.pages f
          → Pasada paso p (f (list_get x.page_table j))
          → Resultado d s (λ g. Pasadas paso x.page_table s.pages g j (suc n))
      Pasada-Resultado d f h k pp =
          Resultado-tras d resto s f _ (λ g. Pasadas paso x.page_table f g (j + 1) n) h k
            (λ g fg r.
              Pasadas-suc paso x.page_table s.pages f g j n k fg
                (λ q eq. Pasada-misma paso p q (s.pages (list_get x.page_table j)) _ e eq pp) r)
            (sigue f k)

      visita-Resultado :
          (b v : Bool)
          → p.is_present ≡ b
          → es_victima paso p ≡ v
          → Resultado
              (visita resto (list_get x.page_table j) j p)
              s
              (λ g. Pasadas paso x.page_table s.pages g j (suc n))
      visita-Resultado false v hb hv =
          Pasada-Resultado (visita resto (list_get x.page_table j) j p) s.pages
            (if-true (not p.is_present) resto (presente resto (list_get x.page_table j) j p) s
              (ap not hb))
            (λ r. Sigue-refl (s.pages r)) (ausente paso p _ hb)
      visita-Resultado true true hb hv =
          let pag : Ref = list_get x.page_table j in
          let h = elegir-ok pag p j ns s l e in
          inl (
            h.0,
            h.1,
            if-false (not p.is_present) resto (presente resto pag j p) s (ap not hb)
                ∙ if-true (es_victima paso p) (elegir pag j ns) (do pasar paso pag; resto) s hv
                ∙ h.2,
          )
      visita-Resultado true false hb hv =
          let pag : Ref = list_get x.page_table j in
          let h = pasar-ok paso pag p s e hv in
          Pasada-Resultado (visita resto pag j p) h.0
            (if-false (not p.is_present) resto (presente resto pag j p) s (ap not hb)
              ∙ if-false (es_victima paso p) (elegir pag j ns) (do pasar paso pag; resto) s hv
              ∙ then-ok (pasar paso pag) resto s (record s { pages = h.0 }) tt h.1)
            h.2 h.3

    -- The pages of one segment.
    pub paginas-Resultado :
        (j n : ℕ) (s : Muse)
        → Libres s
        → s.segments seg ≡ some x
        → Cargadas x.page_table s.pages
        → ((i : ℕ) → i < n → j + i < list_size x.page_table)
        → Resultado
            (recorrer_paginas paso seg ns j n)
            s
            (λ g. Pasadas paso x.page_table s.pages g j n)
    unfolding recorrer_paginas pure
    paginas-Resultado j zero s l hs ca en =
        inr (s.pages, refl, λ r. Sigue-refl (s.pages r), λ i a b. absurd (omega (arith, a, b)))
    paginas-Resultado j (suc n) s l hs ca en =
        let p = ca j (omega (arith, en 0 (omega arith))) in
        Resultado-tras (recorrer_paginas paso seg ns j (suc n))
          (visita (recorrer_paginas paso seg ns (j + 1) n) (list_get x.page_table j) j p.0) s
          s.pages _ (λ g. Pasadas paso x.page_table s.pages g j (suc n))
          (bind-ok (load_segment seg) _ s s x (load_segment-ok seg s x hs)
            ∙ bind-ok (load_page (list_get x.page_table j)) _ s s p.0
                (load_page-ok (list_get x.page_table j) s p.0 p.1))
          (λ r. Sigue-refl (s.pages r)) (λ g fg h. h)
          (visita-Resultado (recorrer_paginas paso seg ns (j + 1) n) j n p.0 s l p.1
            (λ f k.
              paginas-Resultado (j + 1) n (record s { pages = f })
                (record { mm = l.mm; heap = l.heap; mmap = l.mmap }) hs
                (Cargadas-siguen x.page_table s.pages f k ca)
                (λ i h.
                  subst (λ v. v < list_size x.page_table) (mas_uno j i)
                    (en (i + 1) (omega (arith, h)))))
            p.0.is_present (es_victima paso p.0) refl refl)
