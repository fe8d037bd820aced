-- ===== src/Muse/Metadata/Residente.antt =====
-- Segments whose pages are all in the main memory: the heap metadata is read and written there with
-- no page brought in.
use tp_sistemas_operativos.Base.{ℕ, ◌<◌, ◌≡◌, ◌∙◌, true, some}
use tp_sistemas_operativos.Commons.{Ref, Lists}
use tp_sistemas_operativos.Comandos.{ok, pure}
use tp_sistemas_operativos.Comandos.Eval.{bind-ok, if-true}
use tp_sistemas_operativos.Muse.State.{Page, Segment, Muse}
use tp_sistemas_operativos.Muse.Run.{load_page}
use tp_sistemas_operativos.Muse.Run.Locks.{load_page-ok}
use tp_sistemas_operativos.Muse.Metadata.{asegurar}
use tp_sistemas_operativos.Muse.Metadata.Contigua.{Separados}

module _ ⦃c : Lists⦄ where
  open c use {list_get}

  -- The first `n` pages of a segment are `pagina`, are in the main memory, and do not overlap there.
  pub record Residente (s : Muse) (x : Segment) (pagina : ℕ → Page) (n : ℕ) : Type 0 where
    pub cargada : (i : ℕ) → i < n → s.pages (list_get x.page_table i) ≡ some (pagina i)
    pub presente : (i : ℕ) → i < n → (pagina i).is_present ≡ true
    pub separada : Separados (λ i. (pagina i).fr) s.page_size n

  pub asegurar-ok :
      (tope : ℕ) (r : Ref) (s : Muse) (p : Page)
      → s.pages r ≡ some p
      → p.is_present ≡ true
      → asegurar tope r s ≡ ok tt s
  unfolding asegurar pure
  asegurar-ok tope r s p h k =
      bind-ok (load_page r) _ s s p (load_page-ok r s p h) ∙ if-true p.is_present _ _ s k
