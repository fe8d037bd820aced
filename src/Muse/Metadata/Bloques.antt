-- ===== src/Muse/Metadata/Bloques.antt =====
-- A heap segment as a list of blocks: the end of the list.
use tp_sistemas_operativos.Base.{
  ℕ, zero, suc, ◌+◌, ◌*◌, ◌^◌, ◌<◌, ◌≤◌, ◌≡◌, ap, ◌∙◌, true, false, some, List, [], ◌∷◌, arith,
  ◌==◌, length,
}
use tp_sistemas_operativos.Commons.{Ref, Lists}
use tp_sistemas_operativos.Comandos.{ok, pure}
use tp_sistemas_operativos.Comandos.Eval.{bind-ok, if-true, if-false}
use tp_sistemas_operativos.Muse.State.{Page, Segment, HeapMetadata, Muse}
use tp_sistemas_operativos.Muse.Run.{load_segment}
use tp_sistemas_operativos.Muse.Run.Locks.{load_segment-ok}
use tp_sistemas_operativos.Muse.Metadata.{
  metadata_de, siguiente, buscar_metadata_por_direccion, ultima_metadata_segmento,
}
use tp_sistemas_operativos.Muse.Metadata.Residente.{Residente}
use tp_sistemas_operativos.Muse.Metadata.Refina.{segmento_bytes, en_segmento, buscar-refina}
use tp_sistemas_operativos.Wire.Bytes.{Buffer, read_bytes}

-- The bytes that blocks take with their metadata.
abbrev pub total : List HeapMetadata → ℕ
total [] = 0
total (h ∷ hs) = 5 + h.size + total hs

-- From `d` on a buffer has the metadata of the blocks, one behind the other.
abbrev pub EnBloques : Buffer → ℕ → List HeapMetadata → Type 0
EnBloques b d [] = Unit
EnBloques b d (h ∷ hs) = (metadata_de (read_bytes b d 5) ≡ h) × EnBloques b (d + (5 + h.size)) hs

-- Where the last of the blocks is that start at `d`.
abbrev pub ultimo : ℕ → HeapMetadata → List HeapMetadata → ℕ
ultimo d h [] = d
ultimo d h (k ∷ hs) = ultimo (d + (5 + h.size)) k hs

pub son_iguales : (a b : ℕ) → a ≡ b → (a == b) ≡ true
son_iguales a b h = ground (arith, h)

pub son_mayores : (a b : ℕ) → b < a → (a == b) ≡ false
son_mayores a b h = ground (arith, h)

pub son_menores : (a b : ℕ) → a < b → (a == b) ≡ false
son_menores a b h = ground (arith, h)

pub en_segmento-suma : (x : Segment) (d : ℕ) → x.base + d < 2 ^ 32 → en_segmento x (x.base + d) ≡ d
en_segmento-suma x d h = omega (arith, h)

pub siguiente-suma :
    (x : Segment) (d size : ℕ)
    → x.base + (d + (5 + size)) < 2 ^ 32
    → siguiente (x.base + d) size ≡ x.base + (d + (5 + size))
siguiente-suma x d size h = omega (arith, h)

module _ ⦃c : Lists⦄ (tope : ℕ) (seg : Ref) (x : Segment) (pagina : ℕ → Page) (n : ℕ) where
  -- A segment whose pages are in the main memory, and whose addresses do not wrap around.
  pub record EnMemoria (s : Muse) : Type 0 where
    pub segmento : s.segments seg ≡ some x
    pub residente : Residente s x pagina n
    pub ancho : 5 ≤ s.page_size
    pub limite : x.limit < 2 ^ 32

  module _ (s : Muse) (m : EnMemoria s) where
    -- From `d` to the limit of the segment there are the blocks.
    pub record Tramo (d : ℕ) (hs : List HeapMetadata) : Type 0 where
      pub bloques : EnBloques (segmento_bytes s pagina) d hs
      pub fin : x.base + (d + total hs) ≡ x.limit
      pub cabe : d + total hs ≤ n * s.page_size

    pub Tramo-cola :
        (d : ℕ) (h : HeapMetadata) (hs : List HeapMetadata)
        → Tramo d (h ∷ hs)
        → Tramo (d + (5 + h.size)) hs
    Tramo-cola d h hs t = record {
      bloques = t.bloques.1;
      fin = omega (arith, t.fin);
      cabe = omega (arith, t.cabe);
    }

    pub buscar-bloque :
        (d : ℕ) (h : HeapMetadata) (hs : List HeapMetadata)
        → Tramo d (h ∷ hs)
        → buscar_metadata_por_direccion tope (x.base + d) seg s ≡ ok h s
    buscar-bloque d h hs t =
        let e : en_segmento x (x.base + d) ≡ d =
          en_segmento-suma x d (omega (arith, t.fin, m.limite)) in
        buscar-refina tope seg x pagina n s (x.base + d) m.segmento m.residente m.ancho
          (omega (arith, e, t.cabe))
        ∙ ap (λ a. ok (metadata_de (read_bytes (segmento_bytes s pagina) a 5)) s) e
        ∙ ap (λ k. ok k s) t.bloques.0

    -- A walk along the blocks ends at the last, if it may take as many steps as there are blocks.
    pub ultima-ultimo :
        (pasos d : ℕ) (h : HeapMetadata) (hs : List HeapMetadata)
        → Tramo d (h ∷ hs)
        → suc (length hs) ≤ pasos
        → ultima_metadata_segmento tope (x.base + d) seg pasos s ≡ ok (x.base + ultimo d h hs) s
    unfolding ultima_metadata_segmento pure
    ultima-ultimo zero d h hs t l = absurd (omega (arith, l))
    ultima-ultimo (suc pasos) d h [] t l =
        bind-ok (buscar_metadata_por_direccion tope (x.base + d) seg) _ s s h
          (buscar-bloque d h [] t)
        ∙ bind-ok (load_segment seg) _ s s x (load_segment-ok seg s x m.segmento)
        ∙ if-true (siguiente (x.base + d) h.size == x.limit) (pure (x.base + d))
            (ultima_metadata_segmento tope (siguiente (x.base + d) h.size) seg pasos) s
            (son_iguales _ _
              (siguiente-suma x d h.size (omega (arith, t.fin, m.limite)) ∙ omega (arith, t.fin)))
    ultima-ultimo (suc pasos) d h (k ∷ hs) t l =
        let sig : siguiente (x.base + d) h.size ≡ x.base + (d + (5 + h.size)) =
          siguiente-suma x d h.size (omega (arith, t.fin, m.limite)) in
        bind-ok (buscar_metadata_por_direccion tope (x.base + d) seg) _ s s h
          (buscar-bloque d h (k ∷ hs) t)
        ∙ bind-ok (load_segment seg) _ s s x (load_segment-ok seg s x m.segmento)
        ∙ if-false (siguiente (x.base + d) h.size == x.limit) (pure (x.base + d))
            (ultima_metadata_segmento tope (siguiente (x.base + d) h.size) seg pasos) s
            (ap (λ a. a == x.limit) sig ∙ son_menores _ _ (omega (arith, t.fin)))
        ∙ ap (λ a. ultima_metadata_segmento tope a seg pasos s) sig
        ∙ ultima-ultimo pasos (d + (5 + h.size)) k hs (Tramo-cola d h (k ∷ hs) t) (omega (arith, l))
