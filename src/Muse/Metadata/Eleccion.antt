-- ===== src/Muse/Metadata/Eleccion.antt =====
-- What `proxima_metadata_libre_con_size` finds from the base of a segment on.
use tp_sistemas_operativos.Base.{
  ℕ, suc, ◌+◌, ◌≤◌, ◌≡◌, ◌⊎◌, inl, inr, refl, ap, sym, ◌∙◌, Bool, true, false, Option, none, some,
  ◌&&◌, leb, List, [], ◌∷◌, arith, if◌then◌else◌, length,
}
use tp_sistemas_operativos.Commons.{Ref, Lists}
use tp_sistemas_operativos.Comandos.{ok}
use tp_sistemas_operativos.Comandos.Eval.{bind-ok}
use tp_sistemas_operativos.Muse.State.{Page, Segment, HeapMetadata, Muse}
use tp_sistemas_operativos.Muse.Run.{load_segment}
use tp_sistemas_operativos.Muse.Run.Locks.{load_segment-ok}
use tp_sistemas_operativos.Muse.Metadata.{
  ultima_metadata_segmento, direccion_ultima, proxima_metadata_libre_con_size,
}
use tp_sistemas_operativos.Muse.Metadata.Bloques.{ultimo, EnMemoria, Tramo, ultima-ultimo}
use tp_sistemas_operativos.Muse.Metadata.Busqueda.{elegido, direccion, proxima-elegido}

-- `k` is the block at `d` of those that start at `desde`.
abbrev pub EsBloque : ℕ → List HeapMetadata → ℕ → HeapMetadata → Type 0
EsBloque desde [] d k = ⊥
EsBloque desde (h ∷ hs) d k = ((d ≡ desde) × (k ≡ h)) ⊎ EsBloque (desde + (5 + h.size)) hs d k

-- Nothing, or a free block with room for `size`.
abbrev LibreONada : ℕ → ℕ → List HeapMetadata → Option ℕ → Type 0
LibreONada size desde hs o =
    (o ≡ none)
    ⊎ ((d : ℕ) × (k : HeapMetadata) × (o ≡ some d)
        × EsBloque desde hs d k
        × (size ≤ k.size)
        × (k.is_free ≡ true))

LibreONada-cola :
    (size desde : ℕ) (h : HeapMetadata) (hs : List HeapMetadata) (o : Option ℕ)
    → LibreONada size (desde + (5 + h.size)) hs o
    → LibreONada size desde (h ∷ hs) o
LibreONada-cola size desde h hs o (inl e) = inl e
LibreONada-cola size desde h hs o (inr r) = inr (r.0, r.1, r.2, inr r.3, r.4, r.5)

y_ambos : (a b : Bool) → (a && b) ≡ true → (a ≡ true) × (b ≡ true)
y_ambos true b h = (refl, h)
y_ambos false b h = ground (arith, h)

leb-≤ : (a b : ℕ) → leb a b ≡ true → a ≤ b
leb-≤ a b h = ground (arith, h)

LibreONada-if :
    (size desde : ℕ) (h : HeapMetadata) (hs : List HeapMetadata) (o : Option ℕ) (b : Bool)
    → (h.is_free && leb size h.size) ≡ b
    → LibreONada size (desde + (5 + h.size)) hs o
    → LibreONada size desde (h ∷ hs) (if b then some desde else o)
LibreONada-if size desde h hs o true e r =
    let y = y_ambos h.is_free (leb size h.size) e in
    inr (desde, h, refl, inl (refl, refl), leb-≤ size h.size y.1, y.0)
LibreONada-if size desde h hs o false e r = LibreONada-cola size desde h hs o r

elegido-LibreONada :
    (size d : ℕ) (h k : HeapMetadata) (hs : List HeapMetadata)
    → LibreONada size d (h ∷ k ∷ hs) (elegido size d h (k ∷ hs))
elegido-LibreONada size d h k [] =
    LibreONada-cola size d h (k ∷ []) _ (
      LibreONada-if size (d + (5 + h.size)) k [] none (k.is_free && leb size k.size) refl
        (inl refl))
elegido-LibreONada size d h k (m ∷ hs) =
    LibreONada-if size d h (k ∷ m ∷ hs) (elegido size (d + (5 + h.size)) k (m ∷ hs))
      (h.is_free && leb size h.size) refl (elegido-LibreONada size (d + (5 + h.size)) k m hs)

module _ ⦃c : Lists⦄ (tope : ℕ) (seg : Ref) (x : Segment) (pagina : ℕ → Page) (n : ℕ) (s : Muse)
    (m : EnMemoria tope seg x pagina n s) where
  en_base : x.base + 0 ≡ x.base
  en_base = omega arith

  pub ultima-desde_base :
      (h : HeapMetadata) (hs : List HeapMetadata)
      → Tramo tope seg x pagina n s m 0 (h ∷ hs)
      → suc (length hs) ≤ tope
      → direccion_ultima tope seg s ≡ ok (x.base + ultimo 0 h hs) s
  unfolding direccion_ultima
  ultima-desde_base h hs t l =
      bind-ok (load_segment seg) _ s s x (load_segment-ok seg s x m.segmento)
      ∙ ap (λ a. ultima_metadata_segmento tope a seg tope s) (sym en_base)
      ∙ ultima-ultimo tope seg x pagina n s m tope 0 h hs t l

  -- In a segment that is in the main memory and is a list of blocks from its base to its limit,
  -- with as many calls allowed as there are blocks, `proxima_metadata_libre_con_size` returns the
  -- address of the block that `elegido` chooses on the list: the first that is free and has the
  -- size, but the last alone at the last block but one, and the last whatever its flag when it is
  -- the only one.
  pub proxima_metadata-elegido :
      (size : ℕ) (h : HeapMetadata) (hs : List HeapMetadata)
      → Tramo tope seg x pagina n s m 0 (h ∷ hs)
      → suc (length hs) ≤ tope
      → proxima_metadata_libre_con_size tope x.base seg size tope s
        ≡ ok (direccion x.base (elegido size 0 h hs)) s
  proxima_metadata-elegido size h hs t l =
      ap (λ a. proxima_metadata_libre_con_size tope a seg size tope s) (sym en_base)
      ∙ proxima-elegido tope seg x pagina n s m size tope 0 h hs t (ultima-desde_base h hs t l) l

  -- Under the same conditions, in a segment of two blocks or more, `proxima_metadata_libre_con_size`
  -- returns none, or the address of a block that is free and has at least the size.
  pub proxima_metadata-libre :
      (size : ℕ) (h k : HeapMetadata) (hs : List HeapMetadata)
      → Tramo tope seg x pagina n s m 0 (h ∷ k ∷ hs)
      → suc (suc (length hs)) ≤ tope
      → (proxima_metadata_libre_con_size tope x.base seg size tope s ≡ ok none s)
        ⊎ ((d : ℕ) × (b : HeapMetadata) × (proxima_metadata_libre_con_size tope x.base seg size tope
                s
              ≡ ok (some (x.base + d)) s)
            × EsBloque 0 (h ∷ k ∷ hs) d b
            × (size ≤ b.size)
            × (b.is_free ≡ true))
  proxima_metadata-libre size h k hs t l =
      let e = proxima_metadata-elegido size h (k ∷ hs) t l in
      elim (elegido-LibreONada size 0 h k hs) [
        | inl r ↦ inl (e ∙ ap (λ o. ok (direccion x.base o) s) r)
        | inr r ↦ inr (r.0, r.1, e ∙ ap (λ o. ok (direccion x.base o) s) r.2, r.3, r.4, r.5)
      ]
