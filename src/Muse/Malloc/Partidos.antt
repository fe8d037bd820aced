-- ===== src/Muse/Malloc/Partidos.antt =====
-- `memory_malloc` splits a block: the bytes of the segment, and the list of blocks they are.
use tp_sistemas_operativos.Base.{
  ℕ, ◌+◌, ◌-◌, ◌*◌, ◌^◌, ◌<◌, ◌≤◌, ◌≡◌, ◌⊎◌, inl, inr, ap, ◌∙◌, subst, Bool, true, false, List, [],
  ◌∷◌, ◌++◌, arith,
}
use tp_sistemas_operativos.Commons.{Ref, Lists}
use tp_sistemas_operativos.Comandos.{ok}
use tp_sistemas_operativos.Muse.State.{Page, Segment, HeapMetadata, Muse}
use tp_sistemas_operativos.Muse.Metadata.{
  metadata_de, bytes_de, u32, buscar_metadata_por_direccion, modificar_metadata,
}
use tp_sistemas_operativos.Muse.Metadata.Refina.{segmento_bytes, en_segmento, buscar-refina}
use tp_sistemas_operativos.Muse.Metadata.Escritura.{Escrita, modificar-refina}
use tp_sistemas_operativos.Muse.Metadata.RoundTrip.{
  Residente-write, leer-Escrita, leer-otra, metadata_de-bytes_de,
}
use tp_sistemas_operativos.Muse.Metadata.Bloques.{
  total, EnBloques, ultimo, en_segmento-suma, EnMemoria,
}
use tp_sistemas_operativos.Muse.Metadata.Reescritura.{
  EnBloques-igual, EnBloques-partes, EnBloques-append, total-append, Escrita-fuera,
}
use tp_sistemas_operativos.Wire.Bytes.{Buffer, read_bytes}

pub desde_cero : (d : ℕ) → d ≡ 0 + d
desde_cero d = omega arith

resto_igual :
    (d size todo : ℕ)
    → size + 5 ≤ todo
    → 0 + d + (5 + todo) ≡ d + (5 + size) + (5 + (todo - (size + 5)))
resto_igual d size todo h = omega (arith, h)

pub resta_igual : (a b : ℕ) → b ≤ a → a < 2 ^ 32 → u32 (a + 2 ^ 32 - b) ≡ a - b
resta_igual a b h k = omega (arith, h, k)

pub ultimo-cabe :
    (d : ℕ) (h : HeapMetadata) (hs : List HeapMetadata) → ultimo d h hs + 5 ≤ d + total (h ∷ hs)
ultimo-cabe d h [] = omega arith
ultimo-cabe d h (k ∷ hs) = omega (arith, ultimo-cabe (d + (5 + h.size)) k hs)

-- A state with other bytes in the main memory.
abbrev pub con : Muse → Buffer → Muse
con s mm = record s { main_memory = mm }

-- The block `h` behind the blocks `antes` becomes one of `size` bytes that is not free, and one of
-- the rest that is.
abbrev pub partidos : List HeapMetadata → HeapMetadata → List HeapMetadata → ℕ → List HeapMetadata
partidos antes h despues size =
    antes
    ++ record { size = size; is_free = false }
      ∷ record { size = h.size - (size + 5); is_free = true }
      ∷ despues

module _ ⦃c : Lists⦄ (tope : ℕ) (seg : Ref) (x : Segment) (pagina : ℕ → Page) (n : ℕ) where
  pub EnMemoria-con :
      (s : Muse) (mm : Buffer)
      → EnMemoria tope seg x pagina n s
      → EnMemoria tope seg x pagina n (con s mm)
  EnMemoria-con s mm m = record {
    segmento = m.segmento;
    residente = Residente-write tope seg x pagina n s mm m.residente;
    ancho = m.ancho;
    limite = m.limite;
  }

  -- A write of a metadata at `d`, of a size that a word holds.
  pub escribir_en :
      (s : Muse) (d v size : ℕ) (libre : Bool)
      → EnMemoria tope seg x pagina n s
      → x.base + (d + 5) ≤ x.limit
      → d + 5 ≤ n * s.page_size
      → u32 v ≡ size
      → (mm : Buffer) × (modificar_metadata tope (x.base + d) seg v libre s ≡ ok tt (con s mm))
        × Escrita tope seg x pagina n s d (bytes_de (record { size = size; is_free = libre })) mm
  escribir_en s d v size libre m l k e =
      let p : en_segmento x (x.base + d) ≡ d = en_segmento-suma x d (omega (arith, l, m.limite)) in
      let w =
        modificar-refina tope seg x pagina n s (x.base + d) v libre m.segmento m.residente m.ancho
          (omega (arith, p, k)) in
      (
        w.0,
        w.1,
        subst
            (λ a.
              Escrita tope seg x pagina n s d (bytes_de (record { size = a; is_free = libre })) w.0)
            e
            (subst
              (λ a.
                Escrita tope seg x pagina n s a
                  (bytes_de (record { size = u32 v; is_free = libre })) w.0)
              p w.2),
      )

  pub leer_en :
      (s : Muse) (d : ℕ)
      → EnMemoria tope seg x pagina n s
      → x.base + (d + 5) ≤ x.limit
      → d + 5 ≤ n * s.page_size
      → buscar_metadata_por_direccion tope (x.base + d) seg s
        ≡ ok (metadata_de (read_bytes (segmento_bytes s pagina) d 5)) s
  leer_en s d m l k =
      let p : en_segmento x (x.base + d) ≡ d = en_segmento-suma x d (omega (arith, l, m.limite)) in
      buscar-refina tope seg x pagina n s (x.base + d) m.segmento m.residente m.ancho
        (omega (arith, p, k))
      ∙ ap (λ a. ok (metadata_de (read_bytes (segmento_bytes s pagina) a 5)) s) p

  fuera :
      (s : Muse) (d d' : ℕ) (h k : HeapMetadata) (mm mm' : Buffer)
      → Escrita tope seg x pagina n s d (bytes_de h) mm
      → Escrita tope seg x pagina n (con s mm) d' (bytes_de k) mm'
      → (i : ℕ) → i < n * s.page_size
      → (i < d) ⊎ (d + 5 ≤ i)
      → (i < d') ⊎ (d' + 5 ≤ i)
      → segmento_bytes (con s mm') pagina i ≡ segmento_bytes s pagina i
  fuera s d d' h k mm mm' e e' i l a b =
      Escrita-fuera tope seg x pagina n (con s mm) d' k mm' e' i l b
      ∙ Escrita-fuera tope seg x pagina n s d h mm e i l a

  pub partidos-EnBloques :
      (s : Muse) (antes despues : List HeapMetadata) (h : HeapMetadata) (size : ℕ) (mm mm' : Buffer)
      → EnBloques (segmento_bytes s pagina) 0 (antes ++ h ∷ despues)
      → total (antes ++ h ∷ despues) ≤ n * s.page_size
      → size + 5 ≤ h.size
      → h.size < 2 ^ 32
      → Escrita tope seg x pagina n s
          (total antes)
          (bytes_de (record { size = size; is_free = false }))
          mm
      → Escrita tope seg x pagina n
          (con s mm)
          (total antes + (5 + size))
          (bytes_de (record { size = h.size - (size + 5); is_free = true }))
          mm'
      → EnBloques (segmento_bytes (con s mm') pagina) 0 (partidos antes h despues size)
  partidos-EnBloques s antes despues h size mm mm' b k l w e e' =
      let d : ℕ = total antes in
      let d' : ℕ = total antes + (5 + size) in
      let una : HeapMetadata = record { size = size; is_free = false } in
      let otra : HeapMetadata = record { size = h.size - (size + 5); is_free = true } in
      let tam : total (antes ++ h ∷ despues) ≡ d + (5 + h.size + total despues) =
        total-append antes (h ∷ despues) in
      let partes = EnBloques-partes antes (h ∷ despues) (segmento_bytes s pagina) 0 b in
      EnBloques-append antes (una ∷ otra ∷ despues) (segmento_bytes (con s mm') pagina) 0
        (EnBloques-igual antes (segmento_bytes s pagina) (segmento_bytes (con s mm') pagina) 0
          (λ i p q.
            fuera s d d' una otra mm mm' e e' i (omega (arith, k, tam, q)) (inl (omega (arith, q)))
              (inl (omega (arith, q))))
          partes.0)
        (subst (λ a. EnBloques (segmento_bytes (con s mm') pagina) a (una ∷ otra ∷ despues))
          (desde_cero d)
          (
            ap metadata_de (
                  leer-otra tope seg x pagina n (con s mm) d' d otra mm' e'
                    (omega (arith, k, tam, l)) (inl (omega arith))
                  ∙ leer-Escrita tope seg x pagina n s d una mm e (omega (arith, k, tam, l)))
                ∙ metadata_de-bytes_de una (omega (arith, l, w)),
            (
              ap metadata_de (
                    leer-Escrita tope seg x pagina n (con s mm) d' otra mm' e'
                      (omega (arith, k, tam, l)))
                  ∙ metadata_de-bytes_de otra (omega (arith, l, w)),
              subst (λ a. EnBloques (segmento_bytes (con s mm') pagina) a despues)
                  (resto_igual d size h.size l)
                  (EnBloques-igual despues (segmento_bytes s pagina)
                    (segmento_bytes (con s mm') pagina) (0 + d + (5 + h.size))
                    (λ i p q.
                      fuera s d d' una otra mm mm' e e' i (omega (arith, k, tam, q))
                        (inr (omega (arith, p))) (inr (omega (arith, p, l))))
                    partes.1.1),
            ),
          ))
