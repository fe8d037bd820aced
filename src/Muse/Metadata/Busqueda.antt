-- ===== src/Muse/Metadata/Busqueda.antt =====
-- `proxima_metadata_libre_con_size` on a list of blocks.
use tp_sistemas_operativos.Base.{
  ℕ, zero, suc, ◌+◌, ◌<◌, ◌≤◌, ◌≡◌, refl, ap, sym, ◌∙◌, Bool, true, false, Option, none, some, ◌&&◌,
  leb, List, [], ◌∷◌, arith, ◌==◌, if◌then◌else◌, ==_refl, length,
}
use tp_sistemas_operativos.Commons.{Ref, Lists}
use tp_sistemas_operativos.Comandos.{ok, pure}
use tp_sistemas_operativos.Comandos.Eval.{bind-ok, if-true, if-false}
use tp_sistemas_operativos.Muse.State.{Page, Segment, HeapMetadata, Muse}
use tp_sistemas_operativos.Muse.Run.{M}
use tp_sistemas_operativos.Muse.Metadata.{
  siguiente, buscar_metadata_por_direccion, direccion_ultima, ante_ultima_con_size,
  proxima_metadata_libre_con_size,
}
use tp_sistemas_operativos.Muse.Metadata.Bloques.{
  son_iguales, son_menores, son_mayores, ultimo, siguiente-suma, EnMemoria, Tramo, Tramo-cola,
  buscar-bloque,
}

-- The block that the search chooses among those from `d` on, `h` the first: at the last block it asks
-- for the size alone, at the last but one it looks at the last alone, and in front of these it takes
-- the first that is free and large enough.
abbrev pub elegido : ℕ → ℕ → HeapMetadata → List HeapMetadata → Option ℕ
elegido size d h [] = if leb size h.size then some d else none
elegido size d h (k ∷ []) = if k.is_free && leb size k.size then some (d + (5 + h.size)) else none
elegido size d h (k ∷ m ∷ hs) =
    let resto = elegido size (d + (5 + h.size)) k (m ∷ hs) in
    if h.is_free && leb size h.size then some d else resto

abbrev pub direccion : ℕ → Option ℕ → Option ℕ
direccion base none = none
direccion base (some d) = some (base + d)

pub ultimo-despues : (d : ℕ) (h k : HeapMetadata) (hs : List HeapMetadata) → d < ultimo d h (k ∷ hs)
ultimo-despues d h k [] = omega arith
ultimo-despues d h k (m ∷ hs) = omega (arith, ultimo-despues (d + (5 + h.size)) k m hs)

direccion-if :
    (base d : ℕ) (b : Bool) (o : Option ℕ)
    → (if b then some (base + d) else direccion base o) ≡ direccion base (if b then some d else o)
direccion-if base d true o = refl
direccion-if base d false o = refl

module _ ⦃c : Lists⦄ (tope : ℕ) (seg : Ref) (x : Segment) (pagina : ℕ → Page) (n : ℕ) (s : Muse)
    (m : EnMemoria tope seg x pagina n s) where
  abbrev pub TramoDe : ℕ → List HeapMetadata → Type 0
  TramoDe = Tramo tope seg x pagina n s m

  buscar-en :
      (d : ℕ) (h : HeapMetadata) (hs : List HeapMetadata)
      → TramoDe d (h ∷ hs)
      → buscar_metadata_por_direccion tope (x.base + d) seg s ≡ ok h s
  buscar-en = buscar-bloque tope seg x pagina n s m

  -- What the search does in front of the last block but one, in front of the last, and at all.
  abbrev en_medio : ℕ → ℕ → ℕ → HeapMetadata → M (Option ℕ)
  en_medio size pasos dir h =
      if h.is_free && leb size h.size
      then pure (some dir)
      else proxima_metadata_libre_con_size tope (siguiente dir h.size) seg size pasos

  abbrev antes : ℕ → ℕ → ℕ → ℕ → HeapMetadata → M (Option ℕ)
  antes size pasos u dir h =
      if u == siguiente dir h.size
      then ante_ultima_con_size tope (siguiente dir h.size) seg size
      else en_medio size pasos dir h

  abbrev eleccion : ℕ → ℕ → ℕ → ℕ → HeapMetadata → M (Option ℕ)
  eleccion size pasos u dir h =
      if dir == u
      then pure (if leb size h.size then some dir else none)
      else antes size pasos u dir h

  llegar :
      (size pasos u d : ℕ) (h : HeapMetadata) (hs : List HeapMetadata)
      → TramoDe d (h ∷ hs)
      → direccion_ultima tope seg s ≡ ok u s
      → proxima_metadata_libre_con_size tope (x.base + d) seg size (suc pasos) s
        ≡ eleccion size pasos u (x.base + d) h s
  unfolding proxima_metadata_libre_con_size
  llegar size pasos u d h hs t e =
      bind-ok (buscar_metadata_por_direccion tope (x.base + d) seg) _ s s h (buscar-en d h hs t)
      ∙ bind-ok (direccion_ultima tope seg) _ s s u e

  -- The last block, the last but one, and the others.
  en_la_ultima :
      (size pasos d : ℕ) (h : HeapMetadata)
      → eleccion size pasos (x.base + d) (x.base + d) h s
        ≡ ok (direccion x.base (elegido size d h [])) s
  unfolding pure
  en_la_ultima size pasos d h =
      if-true (x.base + d == x.base + d)
        (pure (if leb size h.size then some (x.base + d) else none))
        (antes size pasos (x.base + d) (x.base + d) h) s (==_refl (x.base + d))
      ∙ ap (λ o. ok o s) (direccion-if x.base d (leb size h.size) none)

  ante_ultima-ok :
      (size d : ℕ) (k : HeapMetadata) (hs : List HeapMetadata)
      → TramoDe d (k ∷ hs)
      → ante_ultima_con_size tope (x.base + d) seg size s
        ≡ ok (direccion x.base (if k.is_free && leb size k.size then some d else none)) s
  unfolding ante_ultima_con_size pure
  ante_ultima-ok size d k hs t =
      bind-ok (buscar_metadata_por_direccion tope (x.base + d) seg) _ s s k (buscar-en d k hs t)
      ∙ ap (λ o. ok o s) (direccion-if x.base d (k.is_free && leb size k.size) none)

  en_medio-sigue :
      (b : Bool) (size pasos d : ℕ) (h : HeapMetadata) (o : Option ℕ)
      → proxima_metadata_libre_con_size tope (siguiente (x.base + d) h.size) seg size pasos s
        ≡ ok (direccion x.base o) s
      → (if b
            then pure (some (x.base + d))
            else proxima_metadata_libre_con_size tope
                (siguiente (x.base + d) h.size)
                seg
                size
                pasos)
          s
        ≡ ok (direccion x.base (if b then some d else o)) s
  unfolding pure
  en_medio-sigue true size pasos d h o e = refl
  en_medio-sigue false size pasos d h o e = e

  pub proxima-elegido :
      (size pasos d : ℕ) (h : HeapMetadata) (hs : List HeapMetadata)
      → TramoDe d (h ∷ hs)
      → direccion_ultima tope seg s ≡ ok (x.base + ultimo d h hs) s
      → suc (length hs) ≤ pasos
      → proxima_metadata_libre_con_size tope (x.base + d) seg size pasos s
        ≡ ok (direccion x.base (elegido size d h hs)) s
  unfolding pure
  proxima-elegido size zero d h hs t u l = absurd (omega (arith, l))
  proxima-elegido size (suc pasos) d h [] t u l =
      llegar size pasos (x.base + d) d h [] t u ∙ en_la_ultima size pasos d h
  proxima-elegido size (suc pasos) d h (k ∷ []) t u l =
      let u' : ℕ = x.base + (d + (5 + h.size)) in
      let sig : siguiente (x.base + d) h.size ≡ u' =
        siguiente-suma x d h.size (omega (arith, t.fin, m.limite)) in
      llegar size pasos u' d h (k ∷ []) t u
      ∙ if-false (x.base + d == u') (pure (if leb size h.size then some (x.base + d) else none))
          (antes size pasos u' (x.base + d) h) s (son_menores _ _ (omega arith))
      ∙ if-true (u' == siguiente (x.base + d) h.size)
          (ante_ultima_con_size tope (siguiente (x.base + d) h.size) seg size)
          (en_medio size pasos (x.base + d) h) s (son_iguales _ _ (sym sig))
      ∙ ap (λ a. ante_ultima_con_size tope a seg size s) sig
      ∙ ante_ultima-ok size (d + (5 + h.size)) k []
          (Tramo-cola tope seg x pagina n s m d h (k ∷ []) t)
  proxima-elegido size (suc pasos) d h (k ∷ q ∷ hs) t u l =
      let u' : ℕ = x.base + ultimo d h (k ∷ q ∷ hs) in
      let sig : siguiente (x.base + d) h.size ≡ x.base + (d + (5 + h.size)) =
        siguiente-suma x d h.size (omega (arith, t.fin, m.limite)) in
      llegar size pasos u' d h (k ∷ q ∷ hs) t u
      ∙ if-false (x.base + d == u') (pure (if leb size h.size then some (x.base + d) else none))
          (antes size pasos u' (x.base + d) h) s
          (son_menores _ _ (omega (arith, ultimo-despues d h k (q ∷ hs))))
      ∙ if-false (u' == siguiente (x.base + d) h.size)
          (ante_ultima_con_size tope (siguiente (x.base + d) h.size) seg size)
          (en_medio size pasos (x.base + d) h) s
          (ap (λ a. u' == a) sig
            ∙ son_mayores _ _ (omega (arith, ultimo-despues (d + (5 + h.size)) k q hs)))
      ∙ en_medio-sigue (h.is_free && leb size h.size) size pasos d h
          (elegido size (d + (5 + h.size)) k (q ∷ hs))
          (ap (λ a. proxima_metadata_libre_con_size tope a seg size pasos s) sig
            ∙ proxima-elegido size pasos (d + (5 + h.size)) k (q ∷ hs)
                (Tramo-cola tope seg x pagina n s m d h (k ∷ q ∷ hs) t) u (omega (arith, l)))
