-- ===== src/Muse/Clock/Termina.antt =====
-- The `while` of `dame_nro_frame_reemplazado`, one round after another.
use tp_sistemas_operativos.Base.{
  ℕ, suc, ◌-◌, ◌<◌, ◌≡◌, inl, inr, refl, ap₂, ◌∙◌, Bool, true, false, not, ◌&&◌, Option, none, some,
  List, arith, subst,
}
use tp_sistemas_operativos.Commons.{Ref, Lists}
use tp_sistemas_operativos.Comandos.{ok, pure}
use tp_sistemas_operativos.Comandos.Eval.{bind-ok}
use tp_sistemas_operativos.Muse.State.{Page, Segment, Muse}
use tp_sistemas_operativos.Muse.Run.{M}
use tp_sistemas_operativos.Muse.Clock.{Paso, paso_1, paso_2, otro_paso, recorrer_segmentos, rondas}
use tp_sistemas_operativos.Muse.Clock.Victima.{Libres}
use tp_sistemas_operativos.Muse.Clock.Visita.{Sigue, TodasSiguen, Pasada}
use tp_sistemas_operativos.Muse.Clock.Segmentos.{
  ListaCargada, ListaCargada-siguen, SegmentosPasados, segmentos-Resultado,
}

victima_2 : (u m : Bool) → u ≡ false → m ≡ true → (not u && m) ≡ true
victima_2 u m hu hm = ap₂ (λ a b. not a && b) hu hm

victima_1 : (u m : Bool) → u ≡ false → (not u && not m) ≡ false → m ≡ true
victima_1 u true hu h = refl
victima_1 u false hu h = ground (arith, hu, h)

-- A page that was there is there after a round.
tras_ronda :
    (p : Page) (a b : Option Page)
    → a ≡ some p
    → Sigue a b
    → (q : Page) × (b ≡ some q)
      × (q.is_present ≡ p.is_present)
      × (q.is_modify ≡ p.is_modify)
      × (p.is_used ≡ false → q.is_used ≡ false)
tras_ronda p a b e k = elim (subst (λ x. Sigue x b) e k) [
  | inl f ↦ (p, f, refl, refl, λ h. h)
  | inr f ↦ (record p { is_used = false }, f, refl, refl, λ h. refl)
]

module _ ⦃c : Lists⦄ where
  open c use {list_get, list_size}

  -- A page that is in the main memory, at place `b` of the segment at place `a` of a list.
  pub record Presente (lista : List Ref) (a b : ℕ) (x : Segment) (s : Muse) : Type 0 where
    pub en_lista : a < list_size lista
    pub segmento : s.segments (list_get lista a) ≡ some x
    pub en_tabla : b < list_size x.page_table

  module _ (lista : List Ref) (a b : ℕ) (x : Segment) where
    -- Its reference.
    abbrev pub pag : Ref
    pag = list_get x.page_table b

    abbrev pub Halla : M ℕ → Muse → Type 0
    Halla d s = (n : ℕ) × (t : Muse) × (d s ≡ ok n t)

    -- What the rounds need of a state.
    pub record Listo (s : Muse) : Type 0 where
      pub libres : Libres s
      pub cargada : ListaCargada lista s
      pub ahi : Presente lista a b x s

    Listo-siguen :
        (s : Muse) (g : Ref → Option Page)
        → TodasSiguen s.pages g
        → Listo s
        → Listo (record s { pages = g })
    Listo-siguen s g k r = record {
      libres = record { mm = r.libres.mm; heap = r.libres.heap; mmap = r.libres.mmap };
      cargada = ListaCargada-siguen lista s g k r.cargada;
      ahi = record {
        en_lista = r.ahi.en_lista;
        segmento = r.ahi.segmento;
        en_tabla = r.ahi.en_tabla;
      };
    }

    -- One round of the `while`.
    ronda :
        (paso : Paso) (tope i j : ℕ) (s : Muse)
        → Listo s
        → ((g : Ref → Option Page)
            → TodasSiguen s.pages g
            → (j ≡ 0 → SegmentosPasados paso lista s.segments s.pages g i (list_size lista - i))
            → Halla (rondas tope (otro_paso paso) lista 0 0) (record s { pages = g }))
        → Halla (rondas (suc tope) paso lista i j) s
    unfolding rondas pure
    ronda paso tope i j s r sigue =
        let cuantos : ℕ = list_size lista - i in
        let d : M (Option ℕ) = recorrer_segmentos paso lista i j cuantos in
        elim (segmentos-Resultado paso lista i j cuantos s r.libres r.cargada
          (λ k h. omega (arith, h))) [
            | inl h ↦ (h.0, h.1, bind-ok d _ s h.1 (some h.0) h.2)
            | inr h ↦
                let k = sigue h.0 h.2 h.3 in
                (k.0, k.1, bind-ok d _ s (record s { pages = h.0 }) none h.1 ∙ k.2)
          ]

    -- The page, in a whole round that passed it.
    visto :
        (paso : Paso) (s : Muse) (g : Ref → Option Page) (p : Page)
        → Listo s
        → s.pages pag ≡ some p
        → SegmentosPasados paso lista s.segments s.pages g 0 (list_size lista - 0)
        → Pasada paso p (g pag)
    visto paso s g p r e h =
        h a (omega arith) (omega (arith, r.ahi.en_lista)) x r.ahi.segmento b (omega arith)
          (omega (arith, r.ahi.en_tabla)) p e

    -- Not used but modified: it is chosen in a round 2.
    ronda_4 :
        (tope : ℕ) (s : Muse) (p : Page)
        → Listo s
        → s.pages pag ≡ some p
        → p.is_present ≡ true
        → p.is_used ≡ false
        → p.is_modify ≡ true
        → Halla (rondas (suc tope) paso_2 lista 0 0) s
    ronda_4 tope s p r e hp hu hm = ronda paso_2 tope 0 0 s r (λ g k h. absurd (
        ground
          (arith, victima_2 p.is_used p.is_modify hu hm, (visto paso_2 s g p r e (h refl) hp).0)))

    -- Not used: after a round 1 it is known to be modified.
    ronda_3 :
        (tope : ℕ) (s : Muse) (p : Page)
        → Listo s
        → s.pages pag ≡ some p
        → p.is_present ≡ true
        → p.is_used ≡ false
        → Halla (rondas (suc (suc tope)) paso_1 lista 0 0) s
    ronda_3 tope s p r e hp hu = ronda paso_1 (suc tope) 0 0 s r (λ g k h.
        let q = tras_ronda p (s.pages pag) (g pag) e (k pag) in
        ronda_4 tope (record s { pages = g }) q.0 (Listo-siguen s g k r) q.1 (q.2 ∙ hp) (q.4 hu)
          (q.3 ∙ victima_1 p.is_used p.is_modify hu (visto paso_1 s g p r e (h refl) hp)))

    -- A round 2 takes its mark.
    ronda_2 :
        (tope : ℕ) (s : Muse) (p : Page)
        → Listo s
        → s.pages pag ≡ some p
        → p.is_present ≡ true
        → Halla (rondas (suc (suc (suc tope))) paso_2 lista 0 0) s
    ronda_2 tope s p r e hp = ronda paso_2 (suc (suc tope)) 0 0 s r (λ g k h.
        ronda_3 tope (record s { pages = g }) (record p { is_used = false }) (Listo-siguen s g k r)
          (visto paso_2 s g p r e (h refl) hp).1 hp refl)

    -- From any place on.
    pub rondas-Halla :
        (tope i j : ℕ) (s : Muse) (p : Page)
        → Listo s
        → s.pages pag ≡ some p
        → p.is_present ≡ true
        → Halla (rondas (suc (suc (suc (suc tope)))) paso_1 lista i j) s
    rondas-Halla tope i j s p r e hp = ronda paso_1 (suc (suc (suc tope))) i j s r (λ g k h.
        let q = tras_ronda p (s.pages pag) (g pag) e (k pag) in
        ronda_2 tope (record s { pages = g }) q.0 (Listo-siguen s g k r) q.1 (q.2 ∙ hp))
