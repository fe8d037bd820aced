-- ===== src/Suse/Cierre.antt =====
-- `close_tid` of suse.c for a thread that waits in a queue of the whole system.
pub mod Principal
use tp_sistemas_operativos.Base.{
  ℕ, ◌≡◌, refl, ap, ◌∙◌, true, false, some, ◌==◌, ◌⊎◌, inl, inr, if◌then◌else◌,
}
use tp_sistemas_operativos.Commons.{Ref, Machine}
use tp_sistemas_operativos.Suse.State.{
  e_new, e_blocked, Mutex, same_mutex, mutex_new_queue, mutex_blocked_queue, mutex_process_list,
  mutex_multiprog, Process, Thread, Suse,
}
use tp_sistemas_operativos.Suse.Run.{
  ok, blocks, pure, ◌>>=◌, ◌>>◌, find_process, process_is, thread_is, lock, lock_on, unlock, modify,
  set_actual_multiprog,
}
use tp_sistemas_operativos.Suse.Eval.{
  bind-ok, then-ok, then-blocks, if-false, if-true, con_mutex, load_thread-ok, load_process-ok,
  lock-ok, lock-blocks, find_process-ok, find_thread-ok,
}
use tp_sistemas_operativos.Suse.Transitions.{
  nuevo_a_exit, bloqueado_a_exit, find_process_locked, eliminar_ult_cola_actual, eliminar_de,
  remover_ult_nuevo, remover_ult_bloqueado,
}
use tp_sistemas_operativos.Suse.Close.{close_tid, cerrar_hilo, cerrar_en, bajar_multiprog}

module _ ⦃m : Machine⦄ where
  open m use {list_find, list_is_empty}

  -- No mutex is held; the process at `q` is that of the socket, and the thread at `r` is its thread
  -- with the tid, not the main thread, and no thread waits for its end.
  pub record IsOwnThread (s : Suse) (socket tid : ℕ) (q r : Ref) (p : Process) (t : Thread)
      : Type 0 where
    pub free : (k : Mutex) → s.held k ≡ false
    pub owner : list_find s.process (process_is s (λ o. o.process_id == socket)) ≡ q
    pub process : s.processes q ≡ some p
    pub found : list_find p.ults (thread_is s (λ u. u.tid == tid)) ≡ r
    pub thread : s.threads r ≡ some t
    pub not_main : (t.tid == 0) ≡ false
    pub unjoined : list_is_empty t.joined_by ≡ true

  -- `mutex_process_list` is taken and given back.
  abbrev tras_buscar : Suse → Suse
  tras_buscar s = record s {
    held = λ j.
        if same_mutex j mutex_process_list then false else con_mutex mutex_process_list s.held j;
  }

  find_process_locked-ok :
      (s : Suse) (id : ℕ) (q : Ref)
      → s.held mutex_process_list ≡ false
      → list_find s.process (process_is s (λ o. o.process_id == id)) ≡ q
      → find_process_locked id s ≡ ok q (tras_buscar s)
  unfolding find_process_locked find_process lock lock_on unlock modify pure ◌>>=◌ ◌>>◌
  find_process_locked-ok s id q h e = rw (h, e) refl

  eliminar_nuevo-blocks :
      (s : Suse) (r q : Ref) (t : Thread)
      → s.threads r ≡ some t
      → t.estado ≡ e_new
      → s.held mutex_new_queue ≡ true
      → eliminar_ult_cola_actual r q s ≡ blocks
  unfolding eliminar_ult_cola_actual eliminar_de remover_ult_nuevo
  eliminar_nuevo-blocks s r q t h e held =
      bind-ok _ _ s s t (load_thread-ok s r t h)
      ∙ ap (λ x. eliminar_de x r q s) e
      ∙ then-blocks _ _ s (lock-blocks s mutex_new_queue held)

  eliminar_bloqueado-blocks :
      (s : Suse) (r q : Ref) (t : Thread)
      → s.threads r ≡ some t
      → t.estado ≡ e_blocked
      → s.held mutex_blocked_queue ≡ true
      → eliminar_ult_cola_actual r q s ≡ blocks
  unfolding eliminar_ult_cola_actual eliminar_de remover_ult_bloqueado
  eliminar_bloqueado-blocks s r q t h e held =
      bind-ok _ _ s s t (load_thread-ok s r t h)
      ∙ ap (λ x. eliminar_de x r q s) e
      ∙ then-blocks _ _ s (lock-blocks s mutex_blocked_queue held)

  cerrar_en-blocks :
      (s : Suse) (socket tid : ℕ) (q r : Ref) (p : Process) (t : Thread)
      → IsOwnThread s socket tid q r p t
      → (t.estado ≡ e_new) ⊎ (t.estado ≡ e_blocked)
      → cerrar_en t.estado r q socket s ≡ blocks
  unfolding cerrar_en nuevo_a_exit bloqueado_a_exit bajar_multiprog set_actual_multiprog modify
  cerrar_en-blocks s socket tid q r p t h (inl e) =
      ap (λ x. cerrar_en x r q socket s) e
      ∙ then-ok _ _ s _ tt (lock-ok s mutex_new_queue (h.free mutex_new_queue))
      ∙ then-blocks _ _ _ (
          bind-ok _ _ _ _ q (find_process_locked-ok _ socket q (h.free mutex_process_list) h.owner)
          ∙ then-blocks _ _ _ (eliminar_nuevo-blocks _ r q t h.thread e refl))
  cerrar_en-blocks s socket tid q r p t h (inr e) =
      ap (λ x. cerrar_en x r q socket s) e
      ∙ then-ok _ _ s _ tt (lock-ok s mutex_blocked_queue (h.free mutex_blocked_queue))
      ∙ then-ok _ _ _ _ tt (lock-ok _ mutex_multiprog (h.free mutex_multiprog))
      ∙ then-ok _ _ _ _ tt refl
      ∙ then-blocks _ _ _ (
          bind-ok _ _ _ _ q (find_process_locked-ok _ socket q (h.free mutex_process_list) h.owner)
          ∙ then-blocks _ _ _ (eliminar_bloqueado-blocks _ r q t h.thread e refl))

  -- With no mutex held, `close_tid` for a thread that is new or blocked, that is not the main thread
  -- and for which no other waits, never returns: it takes the mutex of the queue that the thread is
  -- in, and the removal from that queue takes the same mutex again.
  pub close_tid-blocks :
      (s : Suse) (socket tid : ℕ) (q r : Ref) (p : Process) (t : Thread)
      → IsOwnThread s socket tid q r p t
      → (t.estado ≡ e_new) ⊎ (t.estado ≡ e_blocked)
      → close_tid tid socket s ≡ blocks
  unfolding close_tid cerrar_hilo pure
  close_tid-blocks s socket tid q r p t h e =
      bind-ok _ _ s s q (find_process-ok s socket q h.owner)
      ∙ bind-ok _ _ s s p (load_process-ok s q p h.process)
      ∙ bind-ok _ _ s s r (find_thread-ok s p tid r h.found)
      ∙ bind-ok _ _ s s t (load_thread-ok s r t h.thread)
      ∙ if-false _ _ _ s h.not_main
      ∙ bind-ok _ _ s s t (load_thread-ok s r t h.thread)
      ∙ then-ok _ _ s s tt (if-true _ _ _ s h.unjoined)
      ∙ bind-ok _ _ s s t (load_thread-ok s r t h.thread)
      ∙ then-blocks _ _ s (cerrar_en-blocks s socket tid q r p t h e)
