-- ===== src/Muse/Malloc/Partir.antt =====
-- `memory_malloc` splits a block: what the list of blocks becomes.
use tp_sistemas_operativos.Base.{
  ℕ, suc, ◌+◌, ◌-◌, ◌^◌, ◌≤◌, ◌≡◌, ap, ◌∙◌, true, false, List, [], ◌∷◌, ◌++◌, arith, length,
}
use native.Mathlib.Nat.{mod-eq_of_lt}
use tp_sistemas_operativos.Commons.{Ref, Lists}
use tp_sistemas_operativos.Comandos.{ok, pure, ◌>>=◌, ◌>>◌}
use tp_sistemas_operativos.Comandos.Eval.{bind-ok, then-ok}
use tp_sistemas_operativos.Muse.State.{Page, Segment, HeapMetadata, Muse}
use tp_sistemas_operativos.Muse.Metadata.{
  metadata_de, siguiente, metadata_size, buscar_metadata_por_direccion, modificar_metadata,
  direccion_ultima,
}
use tp_sistemas_operativos.Muse.Metadata.Refina.{segmento_bytes}
use tp_sistemas_operativos.Muse.Metadata.RoundTrip.{leer-Escrita, metadata_de-bytes_de}
use tp_sistemas_operativos.Muse.Metadata.Bloques.{total, ultimo, siguiente-suma, EnMemoria, Tramo}
use tp_sistemas_operativos.Muse.Metadata.Eleccion.{ultima-desde_base}
use tp_sistemas_operativos.Muse.Metadata.Reescritura.{EnBloques-partes, total-append}
use tp_sistemas_operativos.Muse.Malloc.{partir_bloque}
use tp_sistemas_operativos.Wire.Bytes.{Buffer, read_bytes}
use tp_sistemas_operativos.Muse.Malloc.Partidos.{
  con, partidos, EnMemoria-con, escribir_en, leer_en, partidos-EnBloques, ultimo-cabe, resta_igual,
  desde_cero,
}

module _ ⦃c : Lists⦄ (tope : ℕ) (seg : Ref) (x : Segment) (pagina : ℕ → Page) (n : ℕ) where
  -- A list of blocks has a last one, which `direccion_ultima` finds and which is in the segment.
  ultima-en :
      (s : Muse) (m : EnMemoria tope seg x pagina n s) (h : HeapMetadata) (hs : List HeapMetadata)
      → Tramo tope seg x pagina n s m 0 (h ∷ hs)
      → suc (length hs) ≤ tope
      → (do
        ultima ← direccion_ultima tope seg
        buscar_metadata_por_direccion tope ultima seg
        pure tt)
          s
        ≡ ok tt s
  unfolding pure
  ultima-en s m h hs t l =
      let e : ultimo 0 h hs + 5 ≤ 0 + total (h ∷ hs) = ultimo-cabe 0 h hs in
      bind-ok (direccion_ultima tope seg) _ s s (x.base + ultimo 0 h hs)
        (ultima-desde_base tope seg x pagina n s m h hs t l)
      ∙ then-ok (buscar_metadata_por_direccion tope (x.base + ultimo 0 h hs) seg) _ s s _ (
          leer_en tope seg x pagina n s (ultimo 0 h hs) m (omega (arith, e, t.fin))
            (omega (arith, e, t.cabe)))

  ultima-partidos :
      (s : Muse) (m : EnMemoria tope seg x pagina n s) (antes despues : List HeapMetadata)
      (h : HeapMetadata)
      → Tramo tope seg x pagina n s m 0 (antes ++ h ∷ despues)
      → length (antes ++ h ∷ despues) ≤ tope
      → (do
        ultima ← direccion_ultima tope seg
        buscar_metadata_por_direccion tope ultima seg
        pure tt)
          s
        ≡ ok tt s
  ultima-partidos s m [] despues h t l = ultima-en s m h despues t l
  ultima-partidos s m (k ∷ antes) despues h t l = ultima-en s m k (antes ++ h ∷ despues) t l

  -- In a segment that is in the main memory and is a list of blocks, `partir_bloque` at the block
  -- `h` succeeds when the block has room for `size` and another metadata, and `tope` allows a walk
  -- along the blocks that result. It changes bytes of the main memory alone, and leaves the list in
  -- which `h` is two blocks: one of `size` that is not free, and one of what is left, less a
  -- metadata, that is.
  pub partir_bloque-partidos :
      (s : Muse) (m : EnMemoria tope seg x pagina n s) (antes despues : List HeapMetadata)
      (h : HeapMetadata) (size : ℕ)
      → Tramo tope seg x pagina n s m 0 (antes ++ h ∷ despues)
      → size + 5 ≤ h.size
      → length (partidos antes h despues size) ≤ tope
      → (mm : Buffer) × (partir_bloque tope seg (x.base + total antes) size s ≡ ok tt (con s mm))
        × Tramo tope seg x pagina n
            (con s mm)
            (EnMemoria-con tope seg x pagina n s mm m)
            0
            (partidos antes h despues size)
  unfolding partir_bloque
  partir_bloque-partidos s m antes despues h size t l f =
      let d : ℕ = total antes in
      let d' : ℕ = total antes + (5 + size) in
      let una : HeapMetadata = record { size = size; is_free = false } in
      let otra : HeapMetadata = record { size = h.size - (size + 5); is_free = true } in
      let tam : total (antes ++ h ∷ despues) ≡ d + (5 + h.size + total despues) =
        total-append antes (h ∷ despues) in
      let tam' : total (partidos antes h despues size) ≡ d + total (una ∷ otra ∷ despues) =
        total-append antes (una ∷ otra ∷ despues) in
      let partes = EnBloques-partes antes (h ∷ despues) (segmento_bytes s pagina) 0 t.bloques in
      let w =
        escribir_en tope seg x pagina n s d size size false m (omega (arith, t.fin, tam))
          (omega (arith, t.cabe, tam)) (mod-eq_of_lt (omega (arith, t.fin, m.limite, tam, l))) in
      let s1 : Muse = con s w.0 in
      let m1 = EnMemoria-con tope seg x pagina n s w.0 m in
      let w' =
        escribir_en tope seg x pagina n s1 d' (h.size + 2 ^ 32 - (size + 5)) (h.size - (size + 5))
          true m1 (omega (arith, t.fin, tam, l)) (omega (arith, t.cabe, tam, l))
          (resta_igual h.size (size + 5) l (omega (arith, t.fin, m.limite, tam))) in
      let s2 : Muse = con s w'.0 in
      let m2 = EnMemoria-con tope seg x pagina n s w'.0 m in
      let sig : siguiente (x.base + d) size ≡ x.base + d' =
        siguiente-suma x d size (omega (arith, t.fin, m.limite, tam, l)) in
      let t' : Tramo tope seg x pagina n s2 m2 0 (partidos antes h despues size) = record {
        bloques =
            partidos-EnBloques tope seg x pagina n s antes despues h size w.0 w'.0 t.bloques
              (omega (arith, t.cabe)) l (omega (arith, t.fin, m.limite, tam)) w.2 w'.2;
        fin = omega (arith, t.fin, tam, tam', l);
        cabe = omega (arith, t.cabe, tam, tam', l);
      } in
      (
        w'.0,
        bind-ok (buscar_metadata_por_direccion tope (x.base + d) seg) _ s s h (
              leer_en tope seg x pagina n s d m (omega (arith, t.fin, tam))
                (omega (arith, t.cabe, tam))
              ∙ ap (λ k. ok k s)
                  (ap (λ a. metadata_de (read_bytes (segmento_bytes s pagina) a 5)) (desde_cero d)
                    ∙ partes.1.0))
            ∙ then-ok (modificar_metadata tope (x.base + d) seg size false) _ s s1 tt w.1
            ∙ bind-ok (buscar_metadata_por_direccion tope (x.base + d) seg) _ s1 s1 una (
                leer_en tope seg x pagina n s1 d m1 (omega (arith, t.fin, tam))
                  (omega (arith, t.cabe, tam))
                ∙ ap (λ b. ok (metadata_de b) s1)
                    (leer-Escrita tope seg x pagina n s d una w.0 w.2 (omega (arith, t.cabe, tam)))
                ∙ ap (λ k. ok k s1)
                    (metadata_de-bytes_de una (omega (arith, t.fin, m.limite, tam, l))))
            ∙ then-ok (buscar_metadata_por_direccion tope (siguiente (x.base + d) size) seg) _ s1 s1
                _
                (ap (λ a. buscar_metadata_por_direccion tope a seg s1) sig
                  ∙ leer_en tope seg x pagina n s1 d' m1 (omega (arith, t.fin, tam, l))
                      (omega (arith, t.cabe, tam, l)))
            ∙ then-ok
                (modificar_metadata tope (siguiente (x.base + d) size) seg
                  (h.size + 2 ^ 32 - (size + metadata_size)) true)
                _ s1 s2 tt
                (ap
                    (λ a.
                      modificar_metadata tope a seg (h.size + 2 ^ 32 - (size + metadata_size)) true
                        s1)
                    sig
                  ∙ w'.1)
            ∙ ultima-partidos s2 m2 antes (otra ∷ despues) una t' f,
        t',
      )
