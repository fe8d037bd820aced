-- ===== src/Muse/Clock/Segmentos.antt =====
-- The outer loop of `dame_nro_frame_reemplazado`: over the segments of a list.
use tp_sistemas_operativos.Base.{
  ℕ, zero, suc, ◌+◌, ◌-◌, ◌<◌, ◌≤◌, ◌≡◌, ◌⊎◌, inl, inr, refl, ap, sym, ◌∙◌, Option, none, some,
  List, arith, subst,
}
use tp_sistemas_operativos.Commons.{Ref, Lists}
use tp_sistemas_operativos.Comandos.{pure}
use tp_sistemas_operativos.Comandos.Eval.{bind-ok}
use tp_sistemas_operativos.Muse.State.{Page, Segment, Muse}
use tp_sistemas_operativos.Muse.Run.{load_segment}
use tp_sistemas_operativos.Muse.Run.Locks.{load_segment-ok}
use tp_sistemas_operativos.Muse.Clock.{Paso, recorrer_paginas, recorrer_segmentos}
use tp_sistemas_operativos.Muse.Clock.Victima.{Libres}
use tp_sistemas_operativos.Muse.Clock.Rondas.{
  Resultado, Resultado-tras, Pasadas, Cargadas, Cargadas-siguen, paginas-Resultado,
}
use tp_sistemas_operativos.Muse.Clock.Visita.{TodasSiguen, Sigue-refl, Pasada-Sigue, Pasada-antes}

module _ ⦃c : Lists⦄ where
  open c use {list_get, list_size}

  -- The segments of a list and their pages are there.
  abbrev pub ListaCargada : List Ref → Muse → Type 0
  ListaCargada lista s =
      (i : ℕ)
      → i < list_size lista
      → (x : Segment) × (s.segments (list_get lista i) ≡ some x) × Cargadas x.page_table s.pages

  pub ListaCargada-siguen :
      (lista : List Ref) (s : Muse) (g : Ref → Option Page)
      → TodasSiguen s.pages g
      → ListaCargada lista s
      → ListaCargada lista (record s { pages = g })
  ListaCargada-siguen lista s g k h i l =
      let x = h i l in (x.0, x.1, Cargadas-siguen x.0.page_table s.pages g k x.2)

  -- All pages of the segments of a list from number `i` on, `n` of them, are passed between `f` and
  -- `g`.
  abbrev pub SegmentosPasados :
      Paso
      → List Ref
      → (Ref → Option Segment)
      → (Ref → Option Page)
      → (Ref → Option Page)
      → ℕ
      → ℕ
      → Type 0
  SegmentosPasados paso lista segs f g i n =
      (k : ℕ)
      → i ≤ k
      → k < i + n
      → (x : Segment) → segs (list_get lista k) ≡ some x
      → Pasadas paso x.page_table f g 0 (list_size x.page_table)

  abbrev o_bien : Segment → Option Segment → Segment
  o_bien d none = d
  o_bien d (some x) = x

  mas_uno : (j i : ℕ) → j + (i + 1) ≡ j + 1 + i
  mas_uno j i = omega arith

  desde : (i j : ℕ) → i ≤ j → (i ≡ j) ⊎ (i + 1 ≤ j)
  desde i j h = omega arith

  SegmentosPasados-suc :
      (paso : Paso) (lista : List Ref) (segs : Ref → Option Segment) (f h g : Ref → Option Page)
      (i n : ℕ) (x : Segment)
      → segs (list_get lista i) ≡ some x
      → TodasSiguen f h
      → TodasSiguen h g
      → Pasadas paso x.page_table f h 0 (list_size x.page_table)
      → SegmentosPasados paso lista segs h g (i + 1) n
      → SegmentosPasados paso lista segs f g i (suc n)
  SegmentosPasados-suc paso lista segs f h g i n x e fh hg aqui resto k a b y ey =
      elim (desde i k a) [
        | inl q ↦
            let w : x ≡ y =
              ap (o_bien x) (sym (subst (λ v. segs (list_get lista v) ≡ some x) q e) ∙ ey) in
            λ j u v p ep.
              Pasada-Sigue paso p (h (list_get y.page_table j)) (g (list_get y.page_table j))
                (subst (λ z. Pasadas paso z.page_table f h 0 (list_size z.page_table)) w aqui j u v
                  p ep)
                (hg (list_get y.page_table j))
        | inr q ↦ λ j u v p ep.
            Pasada-antes paso p (f (list_get y.page_table j)) (h (list_get y.page_table j))
              (g (list_get y.page_table j)) ep (fh (list_get y.page_table j))
              (resto k q (omega (arith, b)) y ey j u v)
      ]

  module _ (paso : Paso) (lista : List Ref) where
    pub segmentos-Resultado :
        (i j n : ℕ) (s : Muse)
        → Libres s
        → ListaCargada lista s
        → ((k : ℕ) → k < n → i + k < list_size lista)
        → Resultado
            (recorrer_segmentos paso lista i j n)
            s
            (λ g. j ≡ 0 → SegmentosPasados paso lista s.segments s.pages g i n)
    unfolding recorrer_segmentos pure
    segmentos-Resultado i j zero s l ca en =
        inr (s.pages, refl, λ r. Sigue-refl (s.pages r), λ z k a b. absurd (omega (arith, a, b)))
    segmentos-Resultado i j (suc n) s l ca en =
        let x = ca i (omega (arith, en 0 (omega arith))) in
        let seg : Ref = list_get lista i in
        let cuantas : ℕ = list_size x.0.page_table - j in
        elim (paginas-Resultado paso seg i x.0 j cuantas s l x.1 x.2 (λ k h. omega (arith, h))) [
          | inl r ↦ inl (
            r.0,
            r.1,
            bind-ok (load_segment seg) _ s s x.0 (load_segment-ok seg s x.0 x.1)
                ∙ bind-ok (recorrer_paginas paso seg i j cuantas) _ s r.1 (some r.0) r.2,
          )
          | inr r ↦
              Resultado-tras (recorrer_segmentos paso lista i j (suc n))
                (recorrer_segmentos paso lista (i + 1) 0 n) s r.0 _
                (λ g. 0 ≡ 0 → SegmentosPasados paso lista s.segments r.0 g (i + 1) n)
                (bind-ok (load_segment seg) _ s s x.0 (load_segment-ok seg s x.0 x.1)
                  ∙ bind-ok (recorrer_paginas paso seg i j cuantas) _ s (record s { pages = r.0 })
                      none r.1)
                r.2
                (λ g hg post z.
                  SegmentosPasados-suc paso lista s.segments s.pages r.0 g i n x.0 x.1 r.2 hg
                    (λ k a b p e. r.3 k (omega (arith, z)) (omega (arith, b, z)) p e) (post refl))
                (segmentos-Resultado (i + 1) 0 n (record s { pages = r.0 })
                  (record { mm = l.mm; heap = l.heap; mmap = l.mmap })
                  (ListaCargada-siguen lista s r.0 r.2 ca)
                  (λ k h.
                    subst (λ v. v < list_size lista) (mas_uno i k) (en (k + 1) (omega (arith, h)))))
        ]
