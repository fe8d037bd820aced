-- ===== src/Muse/Metadata/Refina.antt =====
-- `buscar_metadata_por_direccion` on a segment whose pages are in the main memory, seen as one
-- buffer.
use tp_sistemas_operativos.Base.{
  ℕ, ◌+◌, ◌*◌, ◌/◌, ◌%◌, ◌<◌, ◌≤◌, ◌≡◌, refl, ap, ◌∙◌, Bool, true, false, some, arith,
  if◌then◌else◌, ltb,
}
use tp_sistemas_operativos.Commons.{Ref, Lists}
use tp_sistemas_operativos.Comandos.{ok, pure, gets, ◌>>=◌, ◌>>◌}
use tp_sistemas_operativos.Comandos.Eval.{bind-ok, bind-gets, then-ok}
use tp_sistemas_operativos.Muse.State.{Page, Segment, Muse}
use tp_sistemas_operativos.Muse.Run.{M, load_page, load_segment}
use tp_sistemas_operativos.Muse.Run.Locks.{load_page-ok, load_segment-ok}
use tp_sistemas_operativos.Muse.Metadata.{
  metadata_de, resta_u32, pagina_y_offset, asegurar, leer_cortada, leer_entera,
  buscar_metadata_por_direccion,
}
use tp_sistemas_operativos.Muse.Metadata.Contigua.{contigua, pagina-debajo}
use tp_sistemas_operativos.Muse.Metadata.Residente.{Residente, asegurar-ok}
use tp_sistemas_operativos.Wire.Bytes.{Buffer, read_bytes}
use tp_sistemas_operativos.Muse.Metadata.Partes.{leer-entera, leer-cortada, pagina-siguiente}

-- Where the pages of a segment are.
abbrev pub marcos : (ℕ → Page) → ℕ → ℕ
marcos pagina i = (pagina i).fr

-- The bytes of a segment, in the order of its addresses.
abbrev pub segmento_bytes : Muse → (ℕ → Page) → Buffer
segmento_bytes s pagina = contigua s.main_memory (marcos pagina) s.page_size

-- The place of an address in its segment.
abbrev pub en_segmento : Segment → ℕ → ℕ
en_segmento x dir = resta_u32 dir x.base

-- The two ways to read a metadata, and the test between them.
module _ ⦃c : Lists⦄ (tope : ℕ) (seg : Ref) (x : Segment) (pagina : ℕ → Page) (n : ℕ) where
  open c use {list_get}

  leer_cortada-ok :
      (s : Muse) (d : ℕ)
      → Residente s x pagina n
      → 5 ≤ s.page_size
      → d + 5 ≤ n * s.page_size
      → s.page_size < d % s.page_size + 5
      → leer_cortada tope x
          (d / s.page_size)
          (marcos pagina (d / s.page_size))
          (d % s.page_size)
          s.page_size
          s
        ≡ ok (metadata_de (read_bytes (segmento_bytes s pagina) d 5)) s
  unfolding leer_cortada gets pure
  leer_cortada-ok s d r h k l =
      let i : d / s.page_size + 1 < n = pagina-siguiente s.page_size n d h k l in
      let q : Page = pagina (d / s.page_size + 1) in
      let ref : Ref = list_get x.page_table (d / s.page_size + 1) in
      bind-gets _ _ s
      ∙ then-ok (asegurar tope ref) _ s s tt (
          asegurar-ok tope ref s q (r.cargada (d / s.page_size + 1) i)
            (r.presente (d / s.page_size + 1) i))
      ∙ bind-ok (load_page ref) _ s s q (load_page-ok ref s q (r.cargada (d / s.page_size + 1) i))
      ∙ bind-gets _ _ s
      ∙ ap (λ b. ok (metadata_de b) s)
          (leer-cortada (marcos pagina) s.page_size h s.main_memory d l)

  -- Both commands start with the segment, and with the page of the address and the offset in it.
  pub cabeza :
      {A : Type 0} (sigue : Segment → ℕ × ℕ → Page → ℕ → M A) (dir : ℕ) (s : Muse)
      → s.segments seg ≡ some x
      → Residente s x pagina n
      → en_segmento x dir / s.page_size < n
      → (do
        y ← load_segment seg
        donde ← pagina_y_offset dir y
        let ref = list_get y.page_table donde.0
        asegurar tope ref
        p ← load_page ref
        page_size ← gets λ t. t.page_size
        sigue y donde p page_size)
          s
        ≡ sigue x
            (en_segmento x dir / s.page_size, en_segmento x dir % s.page_size)
            (pagina (en_segmento x dir / s.page_size))
            s.page_size
            s
  unfolding pagina_y_offset
  cabeza sigue dir s hs r i =
      let q : ℕ = en_segmento x dir / s.page_size in
      let ref : Ref = list_get x.page_table q in
      bind-ok (load_segment seg) _ s s x (load_segment-ok seg s x hs)
      ∙ bind-gets _ _ s
      ∙ then-ok (asegurar tope ref) _ s s tt
          (asegurar-ok tope ref s (pagina q) (r.cargada q i) (r.presente q i))
      ∙ bind-ok (load_page ref) _ s s (pagina q) (load_page-ok ref s (pagina q) (r.cargada q i))
      ∙ bind-gets _ _ s

  module _ (s : Muse) (dir : ℕ) (hs : s.segments seg ≡ some x) (r : Residente s x pagina n)
      (h : 5 ≤ s.page_size) (k : en_segmento x dir + 5 ≤ n * s.page_size) where
    leer :
        (b : Bool)
        → ltb s.page_size (en_segmento x dir % s.page_size + 5) ≡ b
        → (if b
              then leer_cortada tope x
                  (en_segmento x dir / s.page_size)
                  (marcos pagina (en_segmento x dir / s.page_size))
                  (en_segmento x dir % s.page_size)
                  s.page_size
              else leer_entera (
                  marcos pagina (en_segmento x dir / s.page_size)
                  + en_segmento x dir % s.page_size))
            s
          ≡ ok (metadata_de (read_bytes (segmento_bytes s pagina) (en_segmento x dir) 5)) s
    unfolding leer_entera gets
    leer true e = leer_cortada-ok s (en_segmento x dir) r h k (ground (arith, e))
    leer false e =
        ap (λ b. ok (metadata_de b) s)
          (leer-entera (marcos pagina) s.page_size h s.main_memory (en_segmento x dir)
            (ground (arith, e)))

    -- What `buscar_metadata_por_direccion` reads are the five bytes of the segment at the address.
    pub buscar-refina :
        buscar_metadata_por_direccion tope dir seg s
        ≡ ok (metadata_de (read_bytes (segmento_bytes s pagina) (en_segmento x dir) 5)) s
    unfolding buscar_metadata_por_direccion
    buscar-refina =
        cabeza _ dir s hs r (
          pagina-debajo (marcos pagina) s.page_size n (en_segmento x dir) (omega arith)
            (omega (arith, k)))
        ∙ leer _ refl
